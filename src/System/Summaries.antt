-- ===== src/System/Summaries.antt =====
-- The summary of a handler of src/ingest.rs that is interleaved with other handlers and tasks.
use hazshield_ingest.Prelude.{
  ℕ, ◌≡◌, ◌≢◌, refl, ◌∙◌, sym, subst, ap, inl, inr, Option, List, [], ◌∷◌, ◌++◌, arith, lookup,
  to_list, collect_some, length, ◌==◌, ==_iff, Bool-cases, Option-cases, if◌then◌else◌,
}
use hazshield_ingest.Platform.{Platform}
use hazshield_ingest.Types.{Violation, Reading}
use hazshield_ingest.Lane.Receiver.{Receiver}
use hazshield_ingest.Ingest.Gateway.{Services, IngestSummary, AppState}
use hazshield_ingest.Ingest.Delivery.{violation_in}
use hazshield_ingest.Ingest.Counts.{Counted, Counted-judge, Counted-trans}
use hazshield_ingest.Warm.Database.{Postgres}
use hazshield_ingest.Hot.External.{Redis, Disk}
use hazshield_ingest.System.{System, Action, put, judging, step, run}
use hazshield_ingest.System
use hazshield_ingest.System.Handlers.{put_self, seen}

module _ {p : Platform} where
  -- The readings that handler `i` judges, each with the state that it reads.
  abbrev pub own : ℕ → List (Action p) → List (AppState p × Reading p)
  own i [] = []
  own i (System.judged j a now r ∷ acts) = (if j == i then (a, r) ∷ [] else []) ++ own i acts
  own i (_ ∷ acts) = own i acts

  abbrev pub violation_by : AppState p × Reading p → Option (Violation p)
  violation_by (a, r) = violation_in a.registry r

  -- Handler `i` does not start again.
  abbrev pub IsUnderway : ℕ → List (Action p) → Type 0
  IsUnderway i [] = Unit {0}
  IsUnderway i (System.started j a ∷ acts) = (j ≢ i) × IsUnderway i acts
  IsUnderway i (_ ∷ acts) = IsUnderway i acts

module _ {p : Platform} where
  abbrev CountedOf : List (AppState p × Reading p) → IngestSummary → IngestSummary → Type 0
  CountedOf rs before after = Counted (length rs) (collect_some violation_by rs) before after

  abbrev pub CountedBy : ℕ → List (Action p) → IngestSummary → IngestSummary → Type 0
  CountedBy i acts before after =
      Counted (length (own i acts)) (collect_some violation_by (own i acts)) before after

  counted_from :
      (rs : List (AppState p × Reading p)) (a b c : IngestSummary)
      → b ≡ a
      → CountedOf rs b c
      → CountedOf rs a c
  counted_from rs a b c same h = subst (λ t. CountedOf rs t c) same h

  counted_as :
      (rs rs' : List (AppState p × Reading p)) (a b : IngestSummary)
      → rs ≡ rs'
      → CountedOf rs' a b
      → CountedOf rs a b
  counted_as rs rs' a b same h = subst (λ t. CountedOf t a b) (sym same) h

pub put_ne {ℓ} : {A : Type ℓ} (i j : ℕ) (a : A) (f : ℕ → A) → j ≢ i → put j a f i ≡ f i
put_ne i j a f h = elim (Bool-cases (i == j)) [
  | inl same ↦ absurd (h (sym ((==_iff i j).0 same)))
  | inr other ↦ rw other refl
]

module _ {p : Platform} {e : Services p} {g : Postgres} {x : Redis} {k : Disk}
    (hot_rx : Receiver e.hot) (warm_rx : Receiver e.warm) (to_json : Violation p → List ℕ) where
  pub sums-dispatched :
      (s : System e g x k) → (step hot_rx warm_rx to_json s System.dispatched).sums ≡ s.sums
  unfolding step
  sums-dispatched s = elim (Option-cases (hot_rx.recv s.work.hot_tx)) [
    | inl waits ↦ rw (waits, step) refl
    | inr ((v, c), takes) ↦ rw (takes, step) refl
  ]

  pub sums-written :
      (s : System e g x k) → (step hot_rx warm_rx to_json s System.written).sums ≡ s.sums
  unfolding step
  sums-written s = elim (Option-cases (warm_rx.recv s.work.warm_tx)) [
    | inl waits ↦ rw (waits, step) refl
    | inr ((r, c), takes) ↦ rw (takes, step) refl
  ]

  -- However the actions of other handlers and tasks come between: the summary of a handler that is
  -- underway counts exactly the readings that it judges itself, each once, and the violations among
  -- them by their severity.
  pub Counted-run :
      (i : ℕ) (acts : List (Action p)) (s : System e g x k)
      → IsUnderway i acts
      → CountedBy i acts (s.sums i) ((run hot_rx warm_rx to_json s acts).sums i)
  unfolding run step
  Counted-run i [] s u = ground arith
  Counted-run i (System.started j a ∷ acts) s u =
      counted_from (own i acts) _ _ _ (put_ne i j _ s.sums u.0)
        (Counted-run i acts (step hot_rx warm_rx to_json s (System.started j a)) u.1)
  Counted-run i (System.published j ∷ acts) s u =
      Counted-run i acts (step hot_rx warm_rx to_json s (System.published j)) u
  Counted-run i (System.refused ∷ acts) s u =
      Counted-run i acts (step hot_rx warm_rx to_json s System.refused) u
  Counted-run i (System.probed ∷ acts) s u =
      Counted-run i acts (step hot_rx warm_rx to_json s System.probed) u
  Counted-run i (System.ticked ∷ acts) s u =
      Counted-run i acts (step hot_rx warm_rx to_json s System.ticked) u
  Counted-run i (System.drained ∷ acts) s u =
      Counted-run i acts (step hot_rx warm_rx to_json s System.drained) u
  Counted-run i (System.dispatched ∷ acts) s u =
      counted_from (own i acts) _ _ _ (ap (λ f. f i) (sums-dispatched s))
        (Counted-run i acts (step hot_rx warm_rx to_json s System.dispatched) u)
  Counted-run i (System.written ∷ acts) s u =
      counted_from (own i acts) _ _ _ (ap (λ f. f i) (sums-written s))
        (Counted-run i acts (step hot_rx warm_rx to_json s System.written) u)
  Counted-run i (System.judged j a now r ∷ acts) s u =
      let s1 = step hot_rx warm_rx to_json s (System.judged j a now r) in
      let rest = Counted-run i acts s1 u in
      let w = judging s j a now r in
      elim (Bool-cases (j == i)) [
        | inl mine ↦
            let same : j ≡ i = (==_iff j i).0 mine in
            let now_i : s1.sums i ≡ w.sum =
              ap (λ t. put j w.sum s.sums t) (sym same) ∙ put_self j w.sum s.sums in
            let one : Counted 1 (to_list (violation_in a.registry r)) (s.sums i) (s1.sums i) =
              subst (λ t. Counted 1 (to_list (violation_in a.registry r)) (s.sums t) (s1.sums i))
                same
                (subst (λ t. Counted 1 (to_list (violation_in a.registry r)) (s.sums j) t)
                  (sym now_i)
                  (Counted-judge e (s.sums j).degraded now r (seen hot_rx warm_rx to_json j s)
                    (lookup r.sensor_id a.registry.sensors))) in
            counted_as _ ((a, r) ∷ own i acts) (s.sums i) _
              (ap (λ b. (if b then (a, r) ∷ [] else []) ++ own i acts) mine)
              (Counted-trans (s.sums i) (s1.sums i) _ (length (own i acts))
                (violation_in a.registry r) (collect_some violation_by (own i acts)) one rest)
        | inr other ↦
            let kept : s1.sums i ≡ s.sums i =
              put_ne i j w.sum s.sums (λ same. let yes_same = (==_iff j i).1 same in cc) in
            counted_as _ (own i acts) (s.sums i) _
              (ap (λ b. (if b then (a, r) ∷ [] else []) ++ own i acts) other)
              (counted_from (own i acts) _ _ _ kept rest)
      ]
