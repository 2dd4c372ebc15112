-- ===== src/System/Handlers.antt =====
-- A handler of src/ingest.rs that no other task interrupts, as actions of the whole gateway.
use hazshield_ingest.Prelude.{
  ℕ, ◌+◌, ◌≤◌, ◌≡◌, refl, ◌∙◌, sym, ap, ap₂, List, [], ◌∷◌, ◌++◌, lookup, length, ==_self,
}
use hazshield_ingest.Platform.{Platform}
use hazshield_ingest.Types.{Violation, Reading, ReadingBatch}
use hazshield_ingest.Lane.Receiver.{Receiver}
use hazshield_ingest.Ingest.{ingest_readings, ingest_batch, is_degraded, started, finished}
use hazshield_ingest.Ingest.Gateway.{Services, Work, AppState, default, ok}
use hazshield_ingest.Ingest.Counts.{Counted-judge}
use hazshield_ingest.Ingest.Batch.{ingest_batch_small, ingest_readings-nil, ingest_readings-cons}
use hazshield_ingest.Warm.Database.{Postgres}
use hazshield_ingest.Hot.External.{Redis, Disk}
use hazshield_ingest.System.{System, Action, put, judging, step, run}
use hazshield_ingest.System

module _ {p : Platform} where
  -- The actions of one handler.
  abbrev pub judgements : ℕ → AppState p → (ℕ → ℕ) → ℕ → List (Reading p) → List (Action p)
  judgements i a clock n [] = []
  judgements i a clock n (r ∷ rs) = System.judged i a (clock n) r ∷ judgements i a clock (n + 1) rs

  abbrev pub handling : ℕ → AppState p → (ℕ → ℕ) → ReadingBatch p → List (Action p)
  handling i a clock batch =
      System.started i a ∷ (judgements i a clock 0 batch.readings ++ (System.published i ∷ []))

pub put_self {ℓ} : {A : Type ℓ} (i : ℕ) (a : A) (f : ℕ → A) → put i a f i ≡ a
put_self i a f = rw (==_self i) refl

module _ {p : Platform} {e : Services p} {g : Postgres} {x : Redis} {k : Disk}
    (hot_rx : Receiver e.hot) (warm_rx : Receiver e.warm) (to_json : Violation p → List ℕ) where
  -- The shared state as handler `i` sees it.
  abbrev pub seen : ℕ → System e g x k → Work e
  seen i s = record (s.work) { sum = s.sums i }

  seen-judged :
      (s : System e g x k) (i : ℕ) (a : AppState p) (now : ℕ) (r : Reading p)
      → seen i (step hot_rx warm_rx to_json s (System.judged i a now r)) ≡ judging s i a now r
  unfolding step
  seen-judged s i a now r =
      ap (λ sum. record (judging s i a now r) { sum = sum }) (put_self i _ s.sums)

  pub run-append :
      (xs ys : List (Action p)) (s : System e g x k)
      → run hot_rx warm_rx to_json s (xs ++ ys)
        ≡ run hot_rx warm_rx to_json (run hot_rx warm_rx to_json s xs) ys
  unfolding run
  run-append [] ys s = refl
  run-append (a ∷ xs) ys s = run-append xs ys (step hot_rx warm_rx to_json s a)

  seen-judgements :
      (i : ℕ) (a : AppState p) (clock : ℕ → ℕ) (n : ℕ) (rs : List (Reading p)) (s : System e g x k)
      → seen i (run hot_rx warm_rx to_json s (judgements i a clock n rs))
        ≡ ingest_readings e a.registry (s.sums i).degraded clock n rs (seen i s)
  unfolding run
  seen-judgements i a clock n [] s =
      sym (ingest_readings-nil e a.registry (s.sums i).degraded clock n (seen i s))
  seen-judgements i a clock n (r ∷ rs) s =
      let s1 = step hot_rx warm_rx to_json s (System.judged i a (clock n) r) in
      let now = seen-judged s i a (clock n) r in
      let mode : (s1.sums i).degraded ≡ (s.sums i).degraded =
        ap (λ w. w.sum.degraded) now
        ∙ (Counted-judge e (s.sums i).degraded (clock n) r (seen i s)
            (lookup r.sensor_id a.registry.sensors)).degraded_kept in
      seen-judgements i a clock (n + 1) rs s1
      ∙ ap₂ (λ d w. ingest_readings e a.registry d clock (n + 1) rs w) mode now
      ∙ sym (ingest_readings-cons e a.registry (s.sums i).degraded clock n r rs (seen i s))

  -- A handler that no other task interrupts does to the shared state, and answers, what
  -- `ingest_batch` says, for a batch within the size limit.
  pub ingest_batch-run :
      (i : ℕ) (a : AppState p) (clock : ℕ → ℕ) (batch : ReadingBatch p) (s : System e g x k)
      → length batch.readings ≤ a.max_batch_size
      → ingest_batch e a clock batch s.work ≡ (
        ok ((run hot_rx warm_rx to_json s (handling i a clock batch)).sums i),
        seen i (run hot_rx warm_rx to_json s (handling i a clock batch)),
      )
  unfolding run step
  ingest_batch-run i a clock batch s small =
      let s1 = step hot_rx warm_rx to_json s (System.started i a) in
      let s2 = run hot_rx warm_rx to_json s1 (judgements i a clock 0 batch.readings) in
      let fresh = record default { degraded = is_degraded e a s.work } in
      let own_sum : s1.sums i ≡ fresh = put_self i fresh s.sums in
      let begun : seen i s1 ≡ started e a s.work =
        ap (λ sum. record (started e a s.work) { sum = sum }) own_sum in
      let looped : seen i s2
          ≡ ingest_readings e a.registry (is_degraded e a s.work) clock 0 batch.readings
              (started e a s.work) =
        seen-judgements i a clock 0 batch.readings s1
        ∙ ap₂ (λ d w. ingest_readings e a.registry d clock 0 batch.readings w)
            (ap (λ sum. sum.degraded) own_sum) begun in
      ingest_batch_small e a clock batch s.work small
      ∙ ap (λ w. (ok w.sum, finished e w)) (sym looped)
      ∙ ap (λ t. (ok (t.sums i), seen i t))
          (sym (run-append (judgements i a clock 0 batch.readings) (System.published i ∷ []) s1))
