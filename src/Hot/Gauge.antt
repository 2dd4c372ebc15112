-- ===== src/Hot/Gauge.antt =====
-- The gauge `hot_redis_up` of src/hot.rs, and the connection that it shows.
use hazshield_ingest.Prelude.{
  ℕ, ◌≡◌, refl, Bool, true, false, List, [], ◌∷◌, inl, inr, Option-cases, if◌then◌else◌,
}
use hazshield_ingest.Platform.{Platform}
use hazshield_ingest.Types.{Violation}
use hazshield_ingest.Hot.Spool.{lines}
use hazshield_ingest.Hot.External.{Redis, Disk}
use hazshield_ingest.Hot.{
  Dispatcher, Event, received, probed, end_replay, replay_file, replay_spill, probe, step, run,
  as_gauge,
}

module _ {x : Redis} {k : Disk} where
  -- The gauge is 1 where there is a connection, else 0.
  abbrev pub Shown : Dispatcher x k → Type 0
  Shown t = t.metrics.hot_redis_up ≡ as_gauge t.conn

  Shown-end_replay :
      (t : Dispatcher x k) (n : ℕ) (out : List (List ℕ) × x.Server)
      → Shown t
      → Shown (end_replay t n out).1
  unfolding end_replay
  Shown-end_replay t n ([], s) h = h
  Shown-end_replay t n (l ∷ rest, s) h = h

  Shown-replay_file :
      (t : Dispatcher x k) (ls : List (List ℕ)) → Shown t → Shown (replay_file t ls).1
  Shown-replay_file t [] h = h
  Shown-replay_file t (l ∷ rest) h = Shown-end_replay t _ _ h

  Shown-replay_spill : (t : Dispatcher x k) → Shown t → Shown (replay_spill t).1
  unfolding replay_spill
  Shown-replay_spill t h = elim (Option-cases (k.read_to_string t.disk)) [
    | inl unread ↦ rw (unread, replay_spill) h
    | inr (c, readable) ↦ rw (readable, replay_spill) (Shown-replay_file t (lines c) h)
  ]

  Shown-if : (b : Bool) (u w : Dispatcher x k) → Shown u → Shown w → Shown (if b then u else w)
  Shown-if true u w h g = h
  Shown-if false u w h g = g

  Shown-probe : (t : Dispatcher x k) → Shown t → Shown (probe t)
  unfolding probe
  Shown-probe t h =
      let t1 : Dispatcher x k = record t { server = (x.connect t.server).1 } in
      let out = replay_spill t1 in
      Shown-if t.conn _ _ h (
        Shown-if (x.connect t.server).0 _ _
          (Shown-if out.0
            (record (out.1) { conn = true; metrics = record (out.1.metrics) { hot_redis_up = 1 } })
            out.1 refl (Shown-replay_spill t1 h))
          h)

  module _ {p : Platform} (to_json : Violation p → List ℕ) where
    Shown-step : (t : Dispatcher x k) (ev : Event p) → Shown t → Shown (step to_json t ev)
    unfolding step
    Shown-step t (received v) h = refl
    Shown-step t probed h = Shown-probe t h

    -- If the gauge `hot_redis_up` shows whether the dispatcher holds a connection before a run over
    -- any history, it shows it after the run, whatever Redis and the disk answered.
    pub Shown-run :
        (evs : List (Event p)) (t : Dispatcher x k) → Shown t → Shown (run to_json t evs)
    unfolding run
    Shown-run [] t h = h
    Shown-run (ev ∷ evs) t h = Shown-run evs (step to_json t ev) (Shown-step t ev h)
