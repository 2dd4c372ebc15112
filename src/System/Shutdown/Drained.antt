-- ===== src/System/Shutdown/Drained.antt =====
-- The turns of the drain in src/main.rs keep the relations for violations and rows.
use hazshield_ingest.Prelude.{ℕ, refl, inl, inr, Bool, true, false, List, [], ◌∷◌, Option-cases}
use hazshield_ingest.Platform.{Platform}
use hazshield_ingest.Types.{Violation}
use hazshield_ingest.Lane.Receiver.{Receiver}
use hazshield_ingest.Ingest.Gateway.{Services}
use hazshield_ingest.Warm.Database.{Postgres}
use hazshield_ingest.Hot.Spool.{IsLine}
use hazshield_ingest.Hot.Kept.{Holds}
use hazshield_ingest.Hot.External.{Redis, Disk, WritesWhole}
use hazshield_ingest.System.{
  System, Action, dispatched, probed, written, drained, dispatcher_of, step,
}
use hazshield_ingest.System.Safe.{Safe, Safe-same, Safe-trans}
use hazshield_ingest.System.Alarms.{Safe-step}
use hazshield_ingest.System.Carried.{Carried, Carried-same, Carried-trans}
use hazshield_ingest.System.Rows.{Carried-step}
use hazshield_ingest.System.Shutdown.{
  Turn, dispatcher_recv, dispatcher_probe, writer_recv, Ending, running, dispatcher_turn,
  writer_turn, turn, drain,
}

module _ {p : Platform} {e : Services p} {g : Postgres} {x : Redis} {k : Disk}
    (hot_rx : Receiver e.hot) (warm_rx : Receiver e.warm) (to_json : Violation p → List ℕ) where
  -- The turns of the drain are actions of the system, or nothing.
  turn-cases :
      (P : System e g x k → Type 0) (s : System e g x k) (d w : Bool) (t : Turn)
      → P s
      → P (step hot_rx warm_rx to_json s dispatched)
      → P (step hot_rx warm_rx to_json s probed)
      → P (step hot_rx warm_rx to_json s written)
      → P (step hot_rx warm_rx to_json s drained)
      → P (turn hot_rx warm_rx to_json (running s d w) t).system
  unfolding turn dispatcher_turn writer_turn
  turn-cases P s false w dispatcher_recv still dis pro wri dra =
      elim (Option-cases (hot_rx.recv s.work.hot_tx)) [
        | inl closed ↦ rw (closed, dispatcher_turn) still
        | inr ((v, c), takes) ↦ rw (takes, dispatcher_turn) dis
      ]
  turn-cases P s true w dispatcher_recv still dis pro wri dra = still
  turn-cases P s false w dispatcher_probe still dis pro wri dra = pro
  turn-cases P s true w dispatcher_probe still dis pro wri dra = still
  turn-cases P s d false writer_recv still dis pro wri dra =
      elim (Option-cases (warm_rx.recv s.work.warm_tx)) [
        | inl closed ↦ rw (closed, writer_turn) dra
        | inr ((r, c), takes) ↦ rw (takes, writer_turn) wri
      ]
  turn-cases P s d true writer_recv still dis pro wri dra = still

  pub Carried-drain :
      (ts : List Turn) (n : Ending e g x k)
      → Carried warm_rx [] 0 n.system (drain hot_rx warm_rx to_json n ts).system
  unfolding drain
  Carried-drain [] n = Carried-same warm_rx n.system n.system refl refl refl refl refl
  Carried-drain (t ∷ ts) n =
      let act = Carried-step hot_rx warm_rx to_json n.system in
      let n' = turn hot_rx warm_rx to_json n t in
      Carried-trans warm_rx n.system n'.system _ [] [] 0 0
        (turn-cases (Carried warm_rx [] 0 n.system) n.system n.dispatcher_done n.writer_done t
          (Carried-same warm_rx n.system n.system refl refl refl refl refl) (act dispatched)
          (act probed) (act written) (act drained))
        (Carried-drain ts n')

module _ {p : Platform} {e : Services p} {g : Postgres} {x : Redis} {k : Disk}
    (hot_rx : Receiver e.hot) (warm_rx : Receiver e.warm) (to_json : Violation p → List ℕ)
    (whole : WritesWhole k) (printed : (v : Violation p) → IsLine (to_json v)) where
  pub Safe-drain :
      (ts : List Turn) (ls : List (List ℕ)) (n : Ending e g x k)
      → Holds ls (dispatcher_of n.system)
      → Safe hot_rx to_json ls [] n.system (drain hot_rx warm_rx to_json n ts).system
  unfolding drain
  Safe-drain [] ls n v = Safe-same hot_rx to_json ls n.system n.system v refl refl refl
  Safe-drain (t ∷ ts) ls n v =
      let act = λ (a : Action p). Safe-step hot_rx warm_rx to_json whole printed ls n.system a v in
      let n' = turn hot_rx warm_rx to_json n t in
      Safe-trans hot_rx to_json n.system n'.system _ ls [] []
        (turn-cases hot_rx warm_rx to_json (Safe hot_rx to_json ls [] n.system) n.system
          n.dispatcher_done n.writer_done t
          (Safe-same hot_rx to_json ls n.system n.system v refl refl refl) (act dispatched)
          (act probed) (act written) (act drained))
        (λ file held. Safe-drain ts file n' held)
