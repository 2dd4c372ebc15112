-- ===== src/Hot/Counts.antt =====
-- The counters of src/hot.rs: every violation that the dispatcher took is counted exactly once, as
-- sent, as spilled or as lost.
use hazshield_ingest.Prelude.{
  ℕ, ◌+◌, ◌≡◌, refl, ◌∙◌, Bool, true, false, List, [], ◌∷◌, length, inl, inr, arith, Bool-cases,
  Option-cases, if◌then◌else◌,
}
use hazshield_ingest.Platform.{Platform}
use hazshield_ingest.Types.{Violation}
use hazshield_ingest.Metrics.{Metrics}
use hazshield_ingest.Hot.Spool.{lines}
use hazshield_ingest.Hot.External.{Redis, Disk}
use hazshield_ingest.Hot.Delivery.{payloads_in}
use hazshield_ingest.Hot.{
  Dispatcher, Event, received, probed, xadd_and_publish, spill, dispatch, disconnected, end_replay,
  replay_file, replay_spill, probe, step, run,
}

-- The violations that were accounted for.
abbrev pub taken : Metrics → ℕ
taken m = m.hot_sent_total + m.hot_spilled_total + m.hot_lost_total

module _ {x : Redis} {k : Disk} where
  taken-spill : (t : Dispatcher x k) (l : List ℕ) → taken (spill t l).metrics ≡ taken t.metrics + 1
  unfolding spill
  taken-spill t l = ground arith

  taken-dispatch :
      (t : Dispatcher x k) (l : List ℕ) → taken (dispatch t l).metrics ≡ taken t.metrics + 1
  unfolding dispatch
  taken-dispatch t l = elim (Bool-cases t.conn) [
    | inr none_held ↦ simp none_held (taken-spill t l)
    | inl held ↦ elim (Bool-cases (xadd_and_publish x t.server l).0) [
      | inl sent ↦ simp (held, sent) (omega arith)
      | inr failed ↦
          simp (held, failed) (taken-spill (disconnected t (xadd_and_publish x t.server l).1) l)
    ]
  ]

  taken-end_replay :
      (t : Dispatcher x k) (n : ℕ) (out : List (List ℕ) × x.Server)
      → taken (end_replay t n out).1.metrics ≡ taken t.metrics
  unfolding end_replay
  taken-end_replay t n ([], s) = refl
  taken-end_replay t n (l ∷ rest, s) = refl

  taken-replay_file :
      (t : Dispatcher x k) (ls : List (List ℕ))
      → taken (replay_file t ls).1.metrics ≡ taken t.metrics
  taken-replay_file t [] = refl
  taken-replay_file t (l ∷ rest) = taken-end_replay t _ _

  taken-replay_spill : (t : Dispatcher x k) → taken (replay_spill t).1.metrics ≡ taken t.metrics
  unfolding replay_spill
  taken-replay_spill t = elim (Option-cases (k.read_to_string t.disk)) [
    | inl unread ↦ rw (unread, replay_spill) refl
    | inr (c, readable) ↦ rw (readable, replay_spill) (taken-replay_file t (lines c))
  ]

  taken-if :
      (n : ℕ) (b : Bool) (u w : Dispatcher x k)
      → taken u.metrics ≡ n
      → taken w.metrics ≡ n
      → taken (if b then u else w).metrics ≡ n
  taken-if n true u w h g = h
  taken-if n false u w h g = g

  taken-probe : (t : Dispatcher x k) → taken (probe t).metrics ≡ taken t.metrics
  unfolding probe
  taken-probe t =
      let replayed = taken-replay_spill (record t { server = (x.connect t.server).1 }) in
      taken-if _ t.conn _ _ refl (
        taken-if _ (x.connect t.server).0 _ _
          (taken-if _ (replay_spill (record t { server = (x.connect t.server).1 })).0 _ _ replayed
            replayed)
          refl)

  module _ {p : Platform} (to_json : Violation p → List ℕ) where
    pub taken-step :
        (t : Dispatcher x k) (ev : Event p)
        → taken (step to_json t ev).metrics
          ≡ taken t.metrics + length (payloads_in to_json (ev ∷ []))
    unfolding step
    taken-step t (received v) = taken-dispatch t (to_json v)
    taken-step t probed = taken-probe t ∙ omega arith

    -- After a run over any history, whatever Redis and the disk answered, the violations counted as
    -- sent, as spilled and as lost together have grown by the number of violations received.
    pub taken-run :
        (evs : List (Event p)) (t : Dispatcher x k)
        → taken (run to_json t evs).metrics ≡ taken t.metrics + length (payloads_in to_json evs)
    unfolding run
    taken-run [] t = omega arith
    taken-run (received v ∷ evs) t =
        omega (arith, taken-run evs (step to_json t (received v)), taken-step t (received v))
    taken-run (probed ∷ evs) t =
        omega (arith, taken-run evs (step to_json t probed), taken-step t probed)
