-- ===== src/System/Shutdown/Buffer.antt =====
-- What the writer of src/main.rs leaves in its buffer when it ends.
use hazshield_ingest.Prelude.{
  ℕ, ◌≡◌, refl, sym, subst, inl, inr, Bool, true, false, List, [], ◌∷◌, Option-cases,
}
use hazshield_ingest.Platform.{Platform}
use hazshield_ingest.Types.{Violation}
use hazshield_ingest.Lane.Receiver.{Receiver}
use hazshield_ingest.Ingest.Gateway.{Services}
use hazshield_ingest.Warm.Copy.{NothingLeft, flush-NothingLeft}
use hazshield_ingest.Warm.Database.{Postgres}
use hazshield_ingest.Hot.External.{Redis, Disk}
use hazshield_ingest.System.{System, dispatched, writer_of, step}
use hazshield_ingest.System.Shutdown.{
  Turn, dispatcher_recv, dispatcher_probe, writer_recv, Ending, running, dispatcher_turn,
  writer_turn, turn, drain,
}

module _ {p : Platform} {e : Services p} {g : Postgres} {x : Redis} {k : Disk}
    (hot_rx : Receiver e.hot) (warm_rx : Receiver e.warm) (to_json : Violation p → List ℕ) where
  -- So it is with a writer that has ended.
  abbrev pub WriterLeft : Bool → System e g x k → Type 0
  WriterLeft false s = Unit {0}
  WriterLeft true s = NothingLeft g s.writer

  writer-dispatched :
      (s : System e g x k) → (step hot_rx warm_rx to_json s dispatched).writer ≡ s.writer
  unfolding step
  writer-dispatched s = elim (Option-cases (hot_rx.recv s.work.hot_tx)) [
    | inl waits ↦ rw (waits, step) refl
    | inr ((v, c), takes) ↦ rw (takes, step) refl
  ]

  WriterLeft-dispatcher_turn :
      (s : System e g x k) (w : Bool)
      → WriterLeft w s
      → let n = dispatcher_turn hot_rx warm_rx to_json (running s false w) in
        WriterLeft n.writer_done n.system
  unfolding dispatcher_turn
  WriterLeft-dispatcher_turn s false h = elim (Option-cases (hot_rx.recv s.work.hot_tx)) [
    | inl closed ↦ rw (closed, dispatcher_turn) h
    | inr ((v, c), takes) ↦ rw (takes, dispatcher_turn) h
  ]
  WriterLeft-dispatcher_turn s true h = elim (Option-cases (hot_rx.recv s.work.hot_tx)) [
    | inl closed ↦ rw (closed, dispatcher_turn) h
    | inr ((v, c), takes) ↦
        rw (takes, dispatcher_turn) (subst (NothingLeft g) (sym (writer-dispatched s)) h)
  ]

  WriterLeft-writer_turn :
      (s : System e g x k) (d : Bool)
      → let n = writer_turn hot_rx warm_rx to_json (running s d false) in
        WriterLeft n.writer_done n.system
  unfolding writer_turn step
  WriterLeft-writer_turn s d = elim (Option-cases (warm_rx.recv s.work.warm_tx)) [
    | inl closed ↦ rw (closed, writer_turn) (flush-NothingLeft g (writer_of s))
    | inr ((r, c), takes) ↦ rw (takes, writer_turn) tt
  ]

  WriterLeft-turn :
      (s : System e g x k) (d w : Bool) (t : Turn)
      → WriterLeft w s
      → let n = turn hot_rx warm_rx to_json (running s d w) t in WriterLeft n.writer_done n.system
  unfolding turn step
  WriterLeft-turn s d false writer_recv h = WriterLeft-writer_turn s d
  WriterLeft-turn s d true writer_recv h = h
  WriterLeft-turn s false false dispatcher_probe h = h
  WriterLeft-turn s false true dispatcher_probe h = h
  WriterLeft-turn s true w dispatcher_probe h = h
  WriterLeft-turn s false w dispatcher_recv h = WriterLeft-dispatcher_turn s w h
  WriterLeft-turn s true w dispatcher_recv h = h

  pub WriterLeft-drain :
      (ts : List Turn) (n : Ending e g x k)
      → WriterLeft n.writer_done n.system
      → let n' = drain hot_rx warm_rx to_json n ts in WriterLeft n'.writer_done n'.system
  unfolding drain
  WriterLeft-drain [] n h = h
  WriterLeft-drain (t ∷ ts) n h =
      WriterLeft-drain ts (turn hot_rx warm_rx to_json n t)
        (WriterLeft-turn n.system n.dispatcher_done n.writer_done t h)
