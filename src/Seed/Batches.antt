-- ===== src/Seed/Batches.antt =====
-- What the batches of src/bin/seed.rs come to: every sensor once, in order, in batches of 1 to 500.
use hazshield_ingest.Prelude.{
  ℕ, zero, suc, ◌+◌, ◌-◌, ◌≤◌, ◌<◌, ◌≡◌, refl, ◌∙◌, sym, ap, inl, inr, true, false, Option, none,
  some, List, [], ◌∷◌, ◌++◌, length, length-append, append_assoc, min, arith, ◌==◌, ◌||◌,
  Bool-cases, Option-cases, map,
}
use hazshield_ingest.Prelude.Sublists.{flat}
use hazshield_ingest.Seed.{Seeding, insert_batch, push_sensor, push_sensors, seed_sensors}

module _ {Row : Type 0} where
  -- The sensors from the n-th on.
  abbrev pub rows : (ℕ → Row) → ℕ → ℕ → List Row
  rows row zero n = []
  rows row (suc k) n = row n ∷ rows row k (n + 1)

  abbrev pub AllSized : List (List Row) → Type 0
  AllSized [] = Unit {0}
  AllSized (b ∷ bs) = ((1 ≤ length b) × (length b ≤ 500)) × AllSized bs

module _ {Row Tx : Type 0} where
  -- The inserts of whole batches, one after the other.
  abbrev pub execute_all : (Tx → List Row → Option Tx) → List (List Row) → Tx → Option Tx
  execute_all execute [] tx = some tx
  execute_all execute (b ∷ bs) tx = elim (execute tx b) [
    | none ↦ none
    | some tx' ↦ execute_all execute bs tx'
  ]

  -- The loop's result, when all of its inserts gave `o`.
  abbrev pub ended : ℕ → Option Tx → Option (Seeding Row Tx)
  ended n none = none
  ended n (some tx) = some (record { batch = []; inserted = n; tx = tx })

module _ {Row Tx : Type 0} (execute : Tx → List Row → Option Tx) (n_sensors : ℕ)
    (row : ℕ → Option Row) (make : ℕ → Row) (made : (n : ℕ) → row n ≡ some (make n)) where
  -- The rest of the loop inserts these batches.
  record Rest (k n inserted : ℕ) (batch : List Row) : Type 0 where
    pub batches : List (List Row)
    pub whole : flat batches ≡ batch ++ rows make k n
    pub sized : AllSized batches
    pub runs :
        (tx : Tx)
        → push_sensors execute n_sensors row k n
            (record { batch = batch; inserted = inserted; tx = tx })
          ≡ ended n_sensors (execute_all execute batches tx)

  Rest-push :
      (k n inserted : ℕ) (batch : List Row)
      → ((length (batch ++ (make n ∷ [])) == 500) || (n == n_sensors - 1)) ≡ false
      → Rest k (n + 1) inserted (batch ++ (make n ∷ []))
      → Rest (suc k) n inserted batch
  unfolding push_sensors push_sensor
  Rest-push k n inserted batch h r = record {
    batches = r.batches;
    whole = r.whole ∙ append_assoc batch (make n ∷ []) (rows make k (n + 1));
    sized = r.sized;
    runs = λ tx. rw (made n, push_sensors, h, push_sensors) (r.runs tx);
  }

  Rest-insert :
      (k n inserted : ℕ) (batch : List Row)
      → ((length (batch ++ (make n ∷ [])) == 500) || (n == n_sensors - 1)) ≡ true
      → length batch < 500
      → Rest k (n + 1) (inserted + min 500 (n_sensors - inserted)) []
      → Rest (suc k) n inserted batch
  unfolding push_sensors push_sensor insert_batch
  Rest-insert k n inserted batch h fits r = record {
    batches = (batch ++ (make n ∷ [])) ∷ r.batches;
    whole =
        ap (λ t. (batch ++ (make n ∷ [])) ++ t) r.whole
        ∙ append_assoc batch (make n ∷ []) (rows make k (n + 1));
    sized = (
      (
        omega (arith, length-append batch (make n ∷ [])),
        omega (arith, length-append batch (make n ∷ [])),
      ),
      r.sized,
    );
    runs = λ tx. elim (Option-cases (execute tx (batch ++ (make n ∷ [])))) [
      | inl failed ↦ rw (made n, push_sensors, h, push_sensors, failed, execute_all) refl
      | inr (tx', done) ↦ rw (made n, push_sensors, h, push_sensors, done, execute_all) (r.runs tx')
    ];
  }

  Rest-all :
      (k n inserted : ℕ) (batch : List Row)
      → n + k ≡ n_sensors
      → inserted + length batch ≡ n
      → length batch < 500
      → (k ≡ 0 → batch ≡ [])
      → Rest k n inserted batch
  unfolding push_sensors
  Rest-all zero n inserted batch e full fits last = record {
    batches = [];
    whole = sym (ap (λ t. t ++ []) (last refl));
    sized = tt;
    runs = λ tx.
        let all : inserted ≡ n_sensors = omega (arith, e, full, ap length (last refl)) in
        rw (last refl) (ap (λ m. some (record { batch = []; inserted = m; tx = tx })) all);
  }
  Rest-all (suc k) n inserted batch e full fits last =
      elim (Bool-cases ((length (batch ++ (make n ∷ [])) == 500) || (n == n_sensors - 1))) [
        | inl cut ↦ Rest-insert k n inserted batch cut fits (
            Rest-all k (n + 1) (inserted + min 500 (n_sensors - inserted)) [] (omega (arith, e))
              (ground (arith, cut, e, full, length-append batch (make n ∷ []))) (omega arith)
              (λ _. refl))
        | inr keep ↦ Rest-push k n inserted batch keep (
            Rest-all k (n + 1) inserted (batch ++ (make n ∷ [])) (omega (arith, e))
              (omega (arith, full, length-append batch (make n ∷ [])))
              (ground (arith, keep, fits, length-append batch (make n ∷ [])))
              (λ z. absurd (ground (arith, keep, e, z))))
      ]

  -- If no sensor's index panics: for any number of sensors there are batches of 1 to 500 sensors each that hold every sensor once
  -- and in order, and for any transaction the loop gives what inserting those batches one after the
  -- other gives: an error if one of them fails, else that transaction with nothing left over and
  -- every sensor counted as inserted.
  pub seed_sensors-batches :
      (batches : List (List Row)) × (flat batches ≡ rows make n_sensors 0)
      × AllSized batches
      × ((tx : Tx)
          → seed_sensors execute n_sensors row tx
            ≡ ended n_sensors (execute_all execute batches tx))
  unfolding seed_sensors
  seed_sensors-batches =
      let r = Rest-all n_sensors 0 0 [] (omega arith) refl (omega arith) (λ _. refl) in
      (r.batches, r.whole, r.sized, r.runs)

  pub map-rows : (k n : ℕ) → map some (rows make k n) ≡ rows row k n
  map-rows zero n = refl
  map-rows (suc k) n = rw (made n) (ap (λ t. some (make n) ∷ t) (map-rows k (n + 1)))

module _ {Row Tx : Type 0} (execute : Tx → List Row → Option Tx) where
  pub seed_sensors-none :
      (n : ℕ) (row : ℕ → Option Row) (tx : Tx)
      → row 0 ≡ none
      → seed_sensors execute (suc n) row tx ≡ none
  unfolding seed_sensors push_sensors push_sensor
  seed_sensors-none n row tx h = rw (h, seed_sensors, push_sensors, push_sensor) refl
