-- ===== src/Hot/Untouched.antt =====
-- The counters of the warm lane and of the handlers, which the dispatcher of src/hot.rs leaves alone.
use hazshield_ingest.Prelude.{
  ℕ, ◌≡◌, refl, Bool, true, false, List, [], ◌∷◌, inl, inr, Bool-cases, Option-cases, if◌then◌else◌,
}
use hazshield_ingest.Platform.{Platform}
use hazshield_ingest.Types.{Violation}
use hazshield_ingest.Metrics.{Metrics, published}
use hazshield_ingest.Hot.Spool.{lines}
use hazshield_ingest.Hot.External.{Redis, Disk}
use hazshield_ingest.Hot.{
  Dispatcher, Event, received, probed, xadd_and_publish, spill, dispatch, disconnected, end_replay,
  replay_file, replay_spill, probe, step,
}

-- Rows shed, rows flushed, readings dropped, what the handlers publish, and the readings kept by
-- sampling.
abbrev pub warm_part : Metrics → ℕ × ℕ × ℕ × (ℕ × ℕ × ℕ × ℕ × ℕ) × ℕ
warm_part m = (
  m.warm_shed_total,
  m.warm_flushed_total,
  m.warm_degraded_dropped,
  published m,
  m.warm_degraded_kept,
)

module _ {x : Redis} {k : Disk} where
  warm_part-if :
      (n : ℕ × ℕ × ℕ × (ℕ × ℕ × ℕ × ℕ × ℕ) × ℕ) (b : Bool) (u w : Dispatcher x k)
      → warm_part u.metrics ≡ n
      → warm_part w.metrics ≡ n
      → warm_part (if b then u else w).metrics ≡ n
  warm_part-if n true u w h g = h
  warm_part-if n false u w h g = g

  warm_part-spill :
      (t : Dispatcher x k) (l : List ℕ) → warm_part (spill t l).metrics ≡ warm_part t.metrics
  unfolding spill
  warm_part-spill t l = elim (Bool-cases (k.write_line (k.open_append t.disk).1 l).0) [
    | inl written ↦ warm_part-if _ (k.open_append t.disk).0 _ _ (rw written refl) refl
    | inr failed ↦ warm_part-if _ (k.open_append t.disk).0 _ _ (rw failed refl) refl
  ]

  warm_part-dispatch :
      (t : Dispatcher x k) (l : List ℕ) → warm_part (dispatch t l).metrics ≡ warm_part t.metrics
  unfolding dispatch
  warm_part-dispatch t l =
      warm_part-if _ t.conn _ _
        (warm_part-if _ (xadd_and_publish x t.server l).0 _ _ refl
          (warm_part-spill (disconnected t (xadd_and_publish x t.server l).1) l))
        (warm_part-spill t l)

  warm_part-end_replay :
      (t : Dispatcher x k) (n : ℕ) (out : List (List ℕ) × x.Server)
      → warm_part (end_replay t n out).1.metrics ≡ warm_part t.metrics
  unfolding end_replay
  warm_part-end_replay t n ([], s) = refl
  warm_part-end_replay t n (l ∷ rest, s) = refl

  warm_part-replay_file :
      (t : Dispatcher x k) (ls : List (List ℕ))
      → warm_part (replay_file t ls).1.metrics ≡ warm_part t.metrics
  warm_part-replay_file t [] = refl
  warm_part-replay_file t (l ∷ rest) = warm_part-end_replay t _ _

  warm_part-replay_spill :
      (t : Dispatcher x k) → warm_part (replay_spill t).1.metrics ≡ warm_part t.metrics
  unfolding replay_spill
  warm_part-replay_spill t = elim (Option-cases (k.read_to_string t.disk)) [
    | inl unread ↦ rw (unread, replay_spill) refl
    | inr (c, readable) ↦ rw (readable, replay_spill) (warm_part-replay_file t (lines c))
  ]

  warm_part-probe : (t : Dispatcher x k) → warm_part (probe t).metrics ≡ warm_part t.metrics
  unfolding probe
  warm_part-probe t =
      let t1 : Dispatcher x k = record t { server = (x.connect t.server).1 } in
      let replayed = warm_part-replay_spill t1 in
      warm_part-if _ t.conn _ _ refl (
        warm_part-if _ (x.connect t.server).0 _ _
          (warm_part-if _ (replay_spill t1).0 _ _ replayed replayed) refl)

  pub warm_part-step :
      {p : Platform} (to_json : Violation p → List ℕ) (t : Dispatcher x k) (ev : Event p)
      → warm_part (step to_json t ev).metrics ≡ warm_part t.metrics
  unfolding step
  warm_part-step to_json t (received v) = warm_part-dispatch t (to_json v)
  warm_part-step to_json t probed = warm_part-probe t
