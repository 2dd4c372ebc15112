-- ===== src/System/Totals.antt =====
-- The number of violations between the handlers of src/ingest.rs and the dispatcher of src/hot.rs, with
-- all tasks of src/main.rs interleaved.
use hazshield_ingest.Prelude.{
  ℕ, ◌+◌, ◌≡◌, refl, ◌∙◌, ap, inl, inr, Option, none, some, List, [], ◌∷◌, ◌++◌, length,
  length-append, to_list, arith, lookup, Bool-cases, Option-cases,
}
use hazshield_ingest.Platform.{Platform}
use hazshield_ingest.Types.{Violation}
use hazshield_ingest.Metrics.{Metrics}
use hazshield_ingest.Lane.Receiver.{Receiver, pending-send}
use hazshield_ingest.Ingest.Gateway.{Services}
use hazshield_ingest.Ingest.Delivery.{violation_in, notify, hot_part-judge}
use hazshield_ingest.Ingest.Untouched.{metrics-judge}
use hazshield_ingest.Warm
use hazshield_ingest.Warm.Untouched.{others-flush, others-step}
use hazshield_ingest.Warm.Database.{Postgres}
use hazshield_ingest.Hot
use hazshield_ingest.Hot.Counts.{taken, taken-step}
use hazshield_ingest.Hot.External.{Redis, Disk}
use hazshield_ingest.System.{
  System, Action, started, judged, published, refused, dispatched, probed, written, ticked, drained,
  dispatcher_of, writer_of, step, run,
}
use hazshield_ingest.System.Alarms.{alarms, alarms_in}

abbrev delivered : Metrics → ℕ
delivered m = m.hot_sent_total + m.hot_spilled_total

module _ {p : Platform} (e : Services p) (hot_rx : Receiver e.hot) where
  -- An offered violation is in the channel or counted as lost, and not both.
  notify-count :
      (c : e.hot.Chan) (lost : ℕ) (o : Option (Violation p))
      → let h = notify e (c, lost) o in
        length (hot_rx.pending h.0) + h.1 ≡ length (hot_rx.pending c) + lost + length (to_list o)
  notify-count c lost none = omega arith
  notify-count c lost (some v) = elim (Bool-cases (e.hot.send c v).0) [
    | inl sent ↦
        let added : hot_rx.pending (e.hot.send c v).1 ≡ hot_rx.pending c ++ (v ∷ []) =
          pending-send hot_rx c v ∙ rw sent refl in
        rw sent (omega (arith, ap length added, length-append (hot_rx.pending c) (v ∷ [])))
    | inr failed ↦
        let same : hot_rx.pending (e.hot.send c v).1 ≡ hot_rx.pending c =
          pending-send hot_rx c v ∙ rw failed refl in
        rw failed (omega (arith, ap length same))
  ]

module _ {p : Platform} {e : Services p} {g : Postgres} {x : Redis} {k : Disk}
    (hot_rx : Receiver e.hot) (warm_rx : Receiver e.warm) (to_json : Violation p → List ℕ) where
  -- The violations counted as sent, spilled or lost, and those in the hot channel.
  abbrev pub total : System e g x k → ℕ
  total s = taken s.work.metrics + length (hot_rx.pending s.work.hot_tx)

  total-dispatched :
      (s : System e g x k) → total (step hot_rx warm_rx to_json s dispatched) ≡ total s
  unfolding step
  total-dispatched s = elim (Option-cases (hot_rx.recv s.work.hot_tx)) [
    | inl waits ↦ rw (waits, step) refl
    | inr ((v, c), takes) ↦
        rw (takes, step)
          (omega (
            arith,
            taken-step to_json (dispatcher_of s) (Hot.received v),
            ap length (hot_rx.recv_some s.work.hot_tx v c takes).1,
          ))
  ]

  total-written : (s : System e g x k) → total (step hot_rx warm_rx to_json s written) ≡ total s
  unfolding step
  total-written s = elim (Option-cases (warm_rx.recv s.work.warm_tx)) [
    | inl waits ↦ rw (waits, step) refl
    | inr ((r, c), takes) ↦
        rw (takes, step)
          (let same = others-step (writer_of s) (Warm.received r) in
            omega (arith, ap (λ t. t.0) same, ap (λ t. t.2) same))
  ]

  total-step :
      (s : System e g x k) (a : Action p)
      → total (step hot_rx warm_rx to_json s a) ≡ total s + length (alarms a)
  unfolding step
  total-step s (started i a) = omega arith
  total-step s (judged i a now r) =
      let w = record (s.work) { sum = s.sums i } in
      let o = lookup r.sensor_id a.registry.sensors in
      let hot = hot_part-judge e (s.sums i).degraded now r w o in
      omega (
        arith,
        notify-count e hot_rx s.work.hot_tx s.work.metrics.hot_lost_total
            (violation_in a.registry r),
        ap (λ h. length (hot_rx.pending h.0) + h.1) hot,
        metrics-judge e delivered (λ m. refl) (λ m. refl) (λ m. refl) (s.sums i).degraded now r w o,
      )
  total-step s (published i) = omega arith
  total-step s refused = omega arith
  total-step s dispatched = omega (arith, total-dispatched s)
  total-step s probed = omega (arith, taken-step to_json (dispatcher_of s) Hot.probed)
  total-step s written = omega (arith, total-written s)
  total-step s ticked =
      let same = others-step (writer_of s) Warm.tick in
      omega (arith, ap (λ t. t.0) same, ap (λ t. t.2) same)
  total-step s drained =
      let same = others-flush (writer_of s) in omega (arith, ap (λ t. t.0) same, ap (λ t. t.2) same)

  -- In any interleaving of handlers, dispatcher and writer, whatever Redis, PostgreSQL, the disk and
  -- the channels answer: the violations counted as sent, as spilled and as lost, and those in the hot
  -- channel, have together grown by exactly the violations among the readings judged.
  pub total-run :
      (acts : List (Action p)) (s : System e g x k)
      → total (run hot_rx warm_rx to_json s acts) ≡ total s + length (alarms_in acts)
  unfolding run
  total-run [] s = omega arith
  total-run (a ∷ acts) s = omega (
    arith,
    total-step s a,
    total-run acts (step hot_rx warm_rx to_json s a),
    length-append (alarms a) (alarms_in acts),
  )
