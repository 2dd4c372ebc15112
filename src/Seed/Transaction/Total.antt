-- ===== src/Seed/Transaction/Total.antt =====
-- The seeder of src/bin/seed.rs gets to its commit: none of its indices is out of range.
use Prim.Native.String.{String}
use hazshield_ingest.Prelude.{
  ℕ, suc, ◌≡◌, refl, sym, ap, subst, ◌∙◌, ◌≤◌, Option, some, List, [], ◌∷◌, ◌++◌, map, length,
  length-map, length-append, arith, ◌>>=◌,
}
use hazshield_ingest.Platform.{Platform}
use hazshield_ingest.Types.{Uuid}
use hazshield_ingest.Seed.{seed_sensors}
use hazshield_ingest.Seed.Batches.{execute_all, ended, seed_sensors-batches}
use hazshield_ingest.Seed.Plant.{Sensor, Random, both_directions, sensor, zones, n_sensors}
use hazshield_ingest.Seed.Plant.Graph.{edges-Joined}
use hazshield_ingest.Seed.Plant.Indices.{sensor-some}
use hazshield_ingest.Seed.Transaction.Loops.{assets_of, fetch_assets-each}
use hazshield_ingest.Seed.Transaction.{
  Statement, Transaction, delete_from, insert_site, insert_zone, insert_adjacency, insert_sensors,
  execute_each, fetch_each, insert_assets, insert_sensors_of, seed,
}

-- The value of a result that is one.
abbrev pub Answered : {A : Type 0} → Option A → Type 0
Answered {A} o = (a : A) × (o ≡ some a)

-- No statement is refused.
pub record Answers {p : Platform} (d : Transaction p) : Type 0 where
  pub execute_answers : (s : Statement p) (tx : d.Tx) → Answered (d.execute s tx)
  pub fetch_answers : (s : Statement p) (tx : d.Tx) → Answered (d.fetch_one s tx)

>>=-Answered :
    {A B : Type 0} (o : Option A) (f : A → Option B)
    → Answered o
    → ((a : A) → o ≡ some a → Answered (f a))
    → Answered (o >>= f)
>>=-Answered o f (a, e) next = subst (λ t. Answered (t >>= f)) (sym e) (next a e)

module _ {p : Platform} {d : Transaction p} (answers : Answers d) where
  execute_each-Answered : (ss : List (Statement p)) (tx : d.Tx) → Answered (execute_each d ss tx)
  unfolding execute_each
  execute_each-Answered [] tx = (tx, refl)
  execute_each-Answered (s ∷ ss) tx =
      >>=-Answered (d.execute s tx) _ (answers.execute_answers s tx)
        (λ tx' e. execute_each-Answered ss tx')

  -- An id for each statement.
  fetch_each-Answered :
      (ss : List (Statement p)) (tx : d.Tx)
      → (out : List Uuid × d.Tx) × (fetch_each d ss tx ≡ some out) × (length out.0 ≡ length ss)
  unfolding fetch_each
  fetch_each-Answered [] tx = (([], tx), refl, refl)
  fetch_each-Answered (s ∷ ss) tx =
      let ((id, tx'), e) = answers.fetch_answers s tx in
      let (rest, e', long) = fetch_each-Answered ss tx' in
      ((id ∷ rest.0, rest.1), rw (e, e') refl, ap suc long)

  module _ (display : ℕ → String) where
    -- At least one asset where there is a zone.
    insert_assets-Answered :
        (zs : List Uuid) (tx : d.Tx)
        → (out : List (Uuid × Uuid) × d.Tx) × (insert_assets d display zs tx ≡ some out)
          × (length zs ≤ length out.0)
    unfolding insert_assets
    insert_assets-Answered [] tx = (([], tx), refl, omega arith)
    insert_assets-Answered (z ∷ zs) tx =
        let (here, e, long) = fetch_each-Answered (assets_of display z) tx in
        let (rest, e', more) = insert_assets-Answered zs here.1 in
        let in_zone : Uuid → Uuid × Uuid = λ id. (id, z) in
        (
          (map (λ id. (id, z)) here.0 ++ rest.0, rest.1),
          rw (fetch_assets-each d display z tx, e, e') refl,
          omega (
            arith,
            more,
            long,
            length-map in_zone here.0,
            length-append (map in_zone here.0) rest.0,
          ),
        )

    execute_all-Answered :
        (bs : List (List (Sensor p))) (tx : d.Tx)
        → Answered (execute_all (λ t b. d.execute (insert_sensors b) t) bs tx)
    execute_all-Answered [] tx = (tx, refl)
    execute_all-Answered (b ∷ bs) tx =
        let (tx', e) = answers.execute_answers (insert_sensors b) tx in
        let (tx'', e') = execute_all-Answered bs tx' in (tx'', rw e e')

    insert_sensors_of-Answered :
        (r : Random p) (assets : List (Uuid × Uuid)) (tx : d.Tx)
        → 1 ≤ length assets
        → Answered (insert_sensors_of d display r assets tx)
    unfolding insert_sensors_of
    insert_sensors_of-Answered r assets tx h =
        let insert : d.Tx → List (Sensor p) → Option d.Tx = λ t b. d.execute (insert_sensors b) t in
        let make : ℕ → Sensor p = λ n. (sensor-some r assets n h).2 in
        let made : (n : ℕ) → sensor r assets n ≡ some (make n) =
          λ n. (sensor-some r assets n h).5 in
        let (bs, _, _, loop) = seed_sensors-batches insert n_sensors (sensor r assets) make made in
        let (tx', e) = execute_all-Answered bs tx in
        >>=-Answered (seed_sensors insert n_sensors (sensor r assets) tx) _
          (_, loop tx ∙ ap (ended n_sensors) e) (λ done _. (done.tx, refl))

    -- When no statement is refused, the seeder gets to its commit, whatever the ids that the statements
    -- return and whatever the generator draws: no index into the zones, the assets or the tables of
    -- constants is out of range, and no remainder is by zero.
    pub seed-Answered : (r : Random p) (tx : d.Tx) → Answered (seed d display r tx)
    unfolding seed
    seed-Answered r tx =
        let (tx₁, e₁) =
          execute_each-Answered
            (map delete_from ("sensor" ∷ "asset" ∷ "zone_adjacency" ∷ "zone" ∷ "site" ∷ [])) tx in
        let (site, e₂) = answers.fetch_answers (insert_site "Pilbara Processing Facility") tx₁ in
        let (zone, e₃, count) =
          fetch_each-Answered (map (λ z. insert_zone site.0 z.0 z.1) zones) site.1 in
        let (links, e₄, _, _) = edges-Joined zone.0 (omega (arith, count)) in
        let (tx₂, e₅) =
          execute_each-Answered (map insert_adjacency (both_directions links)) zone.1 in
        let (asset, e₆, more) = insert_assets-Answered zone.0 tx₂ in
        let (tx', e₇) = insert_sensors_of-Answered r asset.0 asset.1 (omega (arith, count, more)) in
        (tx', rw (e₁, e₂, e₃, e₄, e₅, e₆) e₇)
