-- ===== src/Seed/Transaction/Loops.antt =====
-- What the loops of src/bin/seed.rs run in the seeder's transaction.
use Prim.Native.String.{String, ◌++◌ as ◌+++◌}
use hazshield_ingest.Prelude.{
  ℕ, zero, suc, ◌+◌, ◌≡◌, refl, sym, ap, ap₂, subst, ◌∙◌, none, some, >>=-eq-some, at_some, List,
  [], ◌∷◌, ◌++◌, map, map-append, append-nil, append_assoc, length, inl, inr, arith, Option-cases,
}
use hazshield_ingest.Prelude.Sublists.{flat}
use hazshield_ingest.Platform.{Platform}
use hazshield_ingest.Types.{Uuid}
use hazshield_ingest.Seed.{Seeding}
use hazshield_ingest.Seed.Batches.{rows, execute_all, ended}
use hazshield_ingest.Seed.Plant.{Sensor, n_sensors, zone_of, asset_zones}
use hazshield_ingest.Seed.Transaction.{
  Statement, Transaction, insert_sensors, insert_asset, isolation_actions, execute_each, fetch_each,
  asset_row, fetch_assets, insert_assets,
}

-- A transaction runs a statement that it answers, and that one alone.
pub record Runs {p : Platform} (d : Transaction p) : Type 0 where
  pub execute_runs :
      (s : Statement p) (tx tx' : d.Tx)
      → d.execute s tx ≡ some tx'
      → d.statements tx' ≡ d.statements tx ++ (s ∷ [])
  pub fetch_runs :
      (s : Statement p) (tx tx' : d.Tx) (id : Uuid)
      → d.fetch_one s tx ≡ some (id, tx')
      → d.statements tx' ≡ d.statements tx ++ (s ∷ [])

module _ {A : Type 0} where
  -- One statement and then others.
  pub extend :
      (a : List A) {b c : List A} (s : A) (ss : List A)
      → b ≡ a ++ (s ∷ [])
      → c ≡ b ++ ss
      → c ≡ a ++ (s ∷ ss)
  extend a s ss h k = k ∙ ap (λ t. t ++ ss) h ∙ append_assoc a (s ∷ []) ss

  pub join :
      (a : List A) {b c : List A} (ss ts : List A) → b ≡ a ++ ss → c ≡ b ++ ts → c ≡ a ++ (ss ++ ts)
  join a ss ts h k = k ∙ ap (λ t. t ++ ts) h ∙ append_assoc a ss ts

-- The zones of assets of the same zone.
map-pairs :
    (z : Uuid) (ids : List Uuid) (k n : ℕ)
    → length ids ≡ k
    → map zone_of (map (λ id. (id, z)) ids) ≡ rows (λ _. z) k n
map-pairs z [] zero n h = refl
map-pairs z [] (suc k) n h = absurd (omega (arith, h))
map-pairs z (id ∷ ids) zero n h = absurd (omega (arith, h))
map-pairs z (id ∷ ids) (suc k) n h = ap (λ t. z ∷ t) (map-pairs z ids k (n + 1) (omega (arith, h)))

length-rows : {A : Type 0} (row : ℕ → A) (k n : ℕ) → length (rows row k n) ≡ k
length-rows row zero n = refl
length-rows row (suc k) n = omega (arith, length-rows row k (n + 1))

module _ {p : Platform} (display : ℕ → String) where
  abbrev asset_of : Uuid → ℕ → String → Statement p
  asset_of z n kind = insert_asset z ("asset-" +++ display n) kind (isolation_actions kind)

  -- The ten assets of a zone.
  abbrev pub assets_of : Uuid → List (Statement p)
  assets_of z =
      asset_of z 1 "ball_mill"
      ∷ asset_of z 2 "conveyor_drive"
      ∷ asset_of z 3 "vent_fan"
      ∷ asset_of z 4 "pump"
      ∷ asset_of z 5 "screen"
      ∷ asset_of z 6 "feeder"
      ∷ asset_of z 7 "ball_mill"
      ∷ asset_of z 8 "conveyor_drive"
      ∷ asset_of z 9 "vent_fan"
      ∷ asset_of z 10 "pump"
      ∷ []

  -- The rows of the assets of zones.
  abbrev pub asset_rows : List Uuid → List (Statement p)
  asset_rows zs = flat (map assets_of zs)

pub fetch_assets-each :
    {p : Platform} (d : Transaction p) (display : ℕ → String) (z : Uuid) (tx : d.Tx)
    → fetch_assets d display z 10 0 tx ≡ fetch_each d (assets_of display z) tx
unfolding fetch_assets fetch_each asset_row
fetch_assets-each d display z tx = refl

module _ {p : Platform} {d : Transaction p} (runs : Runs d) where
  pub execute_each-runs :
      (ss : List (Statement p)) (tx tx' : d.Tx)
      → execute_each d ss tx ≡ some tx'
      → d.statements tx' ≡ d.statements tx ++ ss
  unfolding execute_each
  execute_each-runs [] tx tx' h =
      at_some (λ t. d.statements t ≡ d.statements tx ++ []) h (sym (append-nil _))
  execute_each-runs (s ∷ ss) tx tx' h =
      let (tx₁, e, k) = >>=-eq-some (d.execute s tx) _ h in
      extend (d.statements tx) s ss (runs.execute_runs s tx tx₁ e) (execute_each-runs ss tx₁ tx' k)

  -- Statements that ran after `tx`, each with an id.
  abbrev pub Fetched : List (Statement p) → d.Tx → List Uuid × d.Tx → Type 0
  Fetched ss tx out = (d.statements out.1 ≡ d.statements tx ++ ss) × (length out.0 ≡ length ss)

  pub fetch_each-runs :
      (ss : List (Statement p)) (tx : d.Tx) (out : List Uuid × d.Tx)
      → fetch_each d ss tx ≡ some out
      → Fetched ss tx out
  unfolding fetch_each
  fetch_each-runs [] tx out h = at_some (Fetched [] tx) h (sym (append-nil _), refl)
  fetch_each-runs (s ∷ ss) tx out h =
      let (one, e, k) = >>=-eq-some (d.fetch_one s tx) _ h in
      let (rest, e', k') = >>=-eq-some (fetch_each d ss one.1) _ k in
      let (sent, long) = fetch_each-runs ss one.1 rest e' in
      at_some (Fetched (s ∷ ss) tx) k'
        (extend (d.statements tx) s ss (runs.fetch_runs s tx one.1 one.0 e) sent, ap suc long)

  module _ (display : ℕ → String) where
    abbrev pub Stocked : List Uuid → d.Tx → List (Uuid × Uuid) × d.Tx → Type 0
    Stocked zs tx out =
        (d.statements out.1 ≡ d.statements tx ++ asset_rows display zs)
        × (map zone_of out.0 ≡ asset_zones zs)

    pub insert_assets-runs :
        (zs : List Uuid) (tx : d.Tx) (out : List (Uuid × Uuid) × d.Tx)
        → insert_assets d display zs tx ≡ some out
        → Stocked zs tx out
    unfolding insert_assets
    insert_assets-runs [] tx out h = at_some (Stocked [] tx) h (sym (append-nil _), refl)
    insert_assets-runs (z ∷ zs) tx out h =
        let (here, e, k) = >>=-eq-some (fetch_assets d display z 10 0 tx) _ h in
        let (rest, e', k') = >>=-eq-some (insert_assets d display zs here.1) _ k in
        let (sent, long) =
          fetch_each-runs (assets_of display z) tx here
            (sym (fetch_assets-each d display z tx) ∙ e) in
        let (sent', of) = insert_assets-runs zs here.1 rest e' in
        at_some (Stocked (z ∷ zs) tx) k' (
          join (d.statements tx) (assets_of display z) (asset_rows display zs) sent sent',
          map-append zone_of (map (λ id. (id, z)) here.0) rest.0
              ∙ ap₂ (λ a b. a ++ b) (map-pairs z here.0 10 0 long) of,
        )

  pub execute_all-runs :
      (bs : List (List (Sensor p))) (tx tx' : d.Tx)
      → execute_all (λ t b. d.execute (insert_sensors b) t) bs tx ≡ some tx'
      → d.statements tx' ≡ d.statements tx ++ map insert_sensors bs
  execute_all-runs [] tx tx' h =
      at_some (λ t. d.statements t ≡ d.statements tx ++ []) h (sym (append-nil _))
  execute_all-runs (b ∷ bs) tx tx' h = elim (Option-cases (d.execute (insert_sensors b) tx)) [
    | inl failed ↦ absurd (ground (arith, h, failed))
    | inr (tx₁, done) ↦
        extend (d.statements tx) (insert_sensors b) (map insert_sensors bs)
          (runs.execute_runs (insert_sensors b) tx tx₁ done)
          (execute_all-runs bs tx₁ tx' (
            subst
              (λ o.
                elim o [
                  | none ↦ none
                  | some t ↦ execute_all (λ u c. d.execute (insert_sensors c) u) bs t
                ]
                ≡ some tx')
              done h))
  ]

  pub ended-runs :
      (bs : List (List (Sensor p))) (tx : d.Tx) (done : Seeding (Sensor p) d.Tx)
      → ended n_sensors (execute_all (λ t b. d.execute (insert_sensors b) t) bs tx) ≡ some done
      → d.statements done.tx ≡ d.statements tx ++ map insert_sensors bs
  ended-runs bs tx done h =
      elim (Option-cases (execute_all (λ t b. d.execute (insert_sensors b) t) bs tx)) [
        | inl failed ↦ absurd (ground (arith, h, failed))
        | inr (tx', e) ↦
            at_some (λ o. d.statements o.tx ≡ d.statements tx ++ map insert_sensors bs)
              (subst (λ o. ended n_sensors o ≡ some done) e h) (execute_all-runs bs tx tx' e)
      ]
