-- ===== src/System/Shutdown/Left.antt =====
-- How many rounds the tasks of src/main.rs have left at the end, and what they leave behind.
use hazshield_ingest.Prelude.{
  ℕ, suc, ◌-◌, ◌+◌, ◌≤◌, ◌≡◌, refl, sym, ap, subst, inl, inr, Bool, true, false, some, List, [],
  ◌∷◌, length, arith, Option-cases,
}
use hazshield_ingest.Platform.{Platform}
use hazshield_ingest.Types.{Violation, StoredReading}
use hazshield_ingest.Lane.Receiver.{Receiver}
use hazshield_ingest.Ingest.Gateway.{Services}
use hazshield_ingest.Warm.Database.{Postgres}
use hazshield_ingest.Hot.External.{Redis, Disk}
use hazshield_ingest.System.{System, dispatched, written, step}
use hazshield_ingest.System.Shutdown.{
  Turn, dispatcher_recv, dispatcher_probe, writer_recv, Ending, running, dispatcher_turn,
  writer_turn, turn, drain,
}

-- The turns at the channels.
abbrev of_dispatcher : Turn → ℕ
of_dispatcher dispatcher_recv = 1
of_dispatcher _ = 0

abbrev of_writer : Turn → ℕ
of_writer writer_recv = 1
of_writer _ = 0

abbrev pub dispatcher_turns : List Turn → ℕ
dispatcher_turns [] = 0
dispatcher_turns (t ∷ ts) = of_dispatcher t + dispatcher_turns ts

abbrev pub writer_turns : List Turn → ℕ
writer_turns [] = 0
writer_turns (t ∷ ts) = of_writer t + writer_turns ts

-- A task, done or not, with `m` messages in its channel, has `k` rounds left.
abbrev pub IsLeft : Bool → ℕ → ℕ → Type 0
IsLeft false m k = k ≡ suc m
IsLeft true m k = (m ≡ 0) × (k ≡ 0)

pub done : (d : Bool) (m k n : ℕ) → IsLeft d m (k - n) → k ≤ n → (d ≡ true) × (m ≡ 0)
done false m k n h few = absurd (omega (arith, h, few))
done true m k n h few = (refl, h.0)

module _ {p : Platform} {e : Services p} {g : Postgres} {x : Redis} {k : Disk}
    (hot_rx : Receiver e.hot) (warm_rx : Receiver e.warm) (to_json : Violation p → List ℕ) where
  abbrev pub HotLeft : Ending e g x k → ℕ → Type 0
  HotLeft n = IsLeft n.dispatcher_done (length (hot_rx.pending n.system.work.hot_tx))

  abbrev pub WarmLeft : Ending e g x k → ℕ → Type 0
  WarmLeft n = IsLeft n.writer_done (length (warm_rx.pending n.system.work.warm_tx))

  -- The writer's rounds leave the hot channel alone, the dispatcher's the warm one.
  hot_tx-written :
      (s : System e g x k) → (step hot_rx warm_rx to_json s written).work.hot_tx ≡ s.work.hot_tx
  unfolding step
  hot_tx-written s = elim (Option-cases (warm_rx.recv s.work.warm_tx)) [
    | inl waits ↦ rw (waits, step) refl
    | inr ((r, c), takes) ↦ rw (takes, step) refl
  ]

  warm_tx-dispatched :
      (s : System e g x k)
      → (step hot_rx warm_rx to_json s dispatched).work.warm_tx ≡ s.work.warm_tx
  unfolding step
  warm_tx-dispatched s = elim (Option-cases (hot_rx.recv s.work.hot_tx)) [
    | inl waits ↦ rw (waits, step) refl
    | inr ((v, c), takes) ↦ rw (takes, step) refl
  ]

  hot_pending-dispatched :
      (s : System e g x k) (v : Violation p) (c : e.hot.Chan)
      → hot_rx.recv s.work.hot_tx ≡ some (v, c)
      → length (hot_rx.pending s.work.hot_tx)
        ≡ suc (length (hot_rx.pending (step hot_rx warm_rx to_json s dispatched).work.hot_tx))
  unfolding step
  hot_pending-dispatched s v c takes =
      rw (takes, step) (ap length (hot_rx.recv_some s.work.hot_tx v c takes).1)

  warm_pending-written :
      (s : System e g x k) (r : StoredReading p) (c : e.warm.Chan)
      → warm_rx.recv s.work.warm_tx ≡ some (r, c)
      → length (warm_rx.pending s.work.warm_tx)
        ≡ suc (length (warm_rx.pending (step hot_rx warm_rx to_json s written).work.warm_tx))
  unfolding step
  warm_pending-written s r c takes =
      rw (takes, step) (ap length (warm_rx.recv_some s.work.warm_tx r c takes).1)

  HotLeft-dispatcher_turn :
      (s : System e g x k) (w : Bool) (m : ℕ)
      → m ≡ suc (length (hot_rx.pending s.work.hot_tx))
      → HotLeft (dispatcher_turn hot_rx warm_rx to_json (running s false w)) (m - 1)
  unfolding dispatcher_turn
  HotLeft-dispatcher_turn s w m h = elim (Option-cases (hot_rx.recv s.work.hot_tx)) [
    | inl closed ↦
        let nothing : length (hot_rx.pending s.work.hot_tx) ≡ 0 =
          ap length (hot_rx.recv_none s.work.hot_tx closed) in
        rw (closed, dispatcher_turn) (nothing, omega (arith, h, nothing))
    | inr ((v, c), takes) ↦
        rw (takes, dispatcher_turn) (omega (arith, h, hot_pending-dispatched s v c takes))
  ]

  HotLeft-writer_turn :
      (s : System e g x k) (d : Bool) (m : ℕ)
      → HotLeft (running s d false) m
      → HotLeft (writer_turn hot_rx warm_rx to_json (running s d false)) m
  unfolding writer_turn step
  HotLeft-writer_turn s d m h = elim (Option-cases (warm_rx.recv s.work.warm_tx)) [
    | inl closed ↦ rw (closed, writer_turn) h
    | inr ((r, c), takes) ↦
        rw (takes, writer_turn)
          (subst (λ t. IsLeft d (length (hot_rx.pending t)) m) (sym (hot_tx-written s)) h)
  ]

  WarmLeft-writer_turn :
      (s : System e g x k) (d : Bool) (m : ℕ)
      → m ≡ suc (length (warm_rx.pending s.work.warm_tx))
      → WarmLeft (writer_turn hot_rx warm_rx to_json (running s d false)) (m - 1)
  unfolding writer_turn step
  WarmLeft-writer_turn s d m h = elim (Option-cases (warm_rx.recv s.work.warm_tx)) [
    | inl closed ↦
        let nothing : length (warm_rx.pending s.work.warm_tx) ≡ 0 =
          ap length (warm_rx.recv_none s.work.warm_tx closed) in
        rw (closed, writer_turn) (nothing, omega (arith, h, nothing))
    | inr ((r, c), takes) ↦
        rw (takes, writer_turn) (omega (arith, h, warm_pending-written s r c takes))
  ]

  WarmLeft-dispatcher_turn :
      (s : System e g x k) (w : Bool) (m : ℕ)
      → WarmLeft (running s false w) m
      → WarmLeft (dispatcher_turn hot_rx warm_rx to_json (running s false w)) m
  unfolding dispatcher_turn
  WarmLeft-dispatcher_turn s w m h = elim (Option-cases (hot_rx.recv s.work.hot_tx)) [
    | inl closed ↦ rw (closed, dispatcher_turn) h
    | inr ((v, c), takes) ↦
        rw (takes, dispatcher_turn)
          (subst (λ t. IsLeft w (length (warm_rx.pending t)) m) (sym (warm_tx-dispatched s)) h)
  ]

  -- A turn at the channel is one round less, and the other task's turns are none.
  HotLeft-turn :
      (s : System e g x k) (d w : Bool) (t : Turn) (m : ℕ)
      → HotLeft (running s d w) m
      → HotLeft (turn hot_rx warm_rx to_json (running s d w) t) (m - of_dispatcher t)
  unfolding turn step
  HotLeft-turn s false w dispatcher_recv m h = HotLeft-dispatcher_turn s w m h
  HotLeft-turn s true w dispatcher_recv m h = (h.0, omega (arith, h.1))
  HotLeft-turn s false w dispatcher_probe m h = omega (arith, h)
  HotLeft-turn s true w dispatcher_probe m h = (h.0, omega (arith, h.1))
  HotLeft-turn s d false writer_recv m h =
      subst (HotLeft (writer_turn hot_rx warm_rx to_json (running s d false))) (omega arith)
        (HotLeft-writer_turn s d m h)
  HotLeft-turn s d true writer_recv m h = subst (HotLeft (running s d true)) (omega arith) h

  WarmLeft-turn :
      (s : System e g x k) (d w : Bool) (t : Turn) (m : ℕ)
      → WarmLeft (running s d w) m
      → WarmLeft (turn hot_rx warm_rx to_json (running s d w) t) (m - of_writer t)
  unfolding turn step
  WarmLeft-turn s d false writer_recv m h = WarmLeft-writer_turn s d m h
  WarmLeft-turn s d true writer_recv m h = (h.0, omega (arith, h.1))
  WarmLeft-turn s false w dispatcher_probe m h =
      subst (λ i. IsLeft w (length (warm_rx.pending s.work.warm_tx)) i) (omega arith) h
  WarmLeft-turn s true w dispatcher_probe m h = subst (WarmLeft (running s true w)) (omega arith) h
  WarmLeft-turn s false w dispatcher_recv m h =
      subst (WarmLeft (dispatcher_turn hot_rx warm_rx to_json (running s false w))) (omega arith)
        (WarmLeft-dispatcher_turn s w m h)
  WarmLeft-turn s true w dispatcher_recv m h = subst (WarmLeft (running s true w)) (omega arith) h

  pub HotLeft-drain :
      (ts : List Turn) (n : Ending e g x k) (m : ℕ)
      → HotLeft n m
      → HotLeft (drain hot_rx warm_rx to_json n ts) (m - dispatcher_turns ts)
  unfolding drain
  HotLeft-drain [] n m h = subst (HotLeft n) (omega arith) h
  HotLeft-drain (t ∷ ts) n m h =
      let one = HotLeft-turn n.system n.dispatcher_done n.writer_done t m h in
      let sum : m - of_dispatcher t - dispatcher_turns ts ≡ m - dispatcher_turns (t ∷ ts) =
        omega arith in
      subst (HotLeft (drain hot_rx warm_rx to_json n (t ∷ ts))) sum
        (HotLeft-drain ts (turn hot_rx warm_rx to_json n t) (m - of_dispatcher t) one)

  pub WarmLeft-drain :
      (ts : List Turn) (n : Ending e g x k) (m : ℕ)
      → WarmLeft n m
      → WarmLeft (drain hot_rx warm_rx to_json n ts) (m - writer_turns ts)
  unfolding drain
  WarmLeft-drain [] n m h = subst (WarmLeft n) (omega arith) h
  WarmLeft-drain (t ∷ ts) n m h =
      let one = WarmLeft-turn n.system n.dispatcher_done n.writer_done t m h in
      let sum : m - of_writer t - writer_turns ts ≡ m - writer_turns (t ∷ ts) = omega arith in
      subst (WarmLeft (drain hot_rx warm_rx to_json n (t ∷ ts))) sum
        (WarmLeft-drain ts (turn hot_rx warm_rx to_json n t) (m - of_writer t) one)
