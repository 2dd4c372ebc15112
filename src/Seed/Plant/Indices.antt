-- ===== src/Seed/Plant/Indices.antt =====
-- The indices of src/bin/seed.rs that are under a remainder.
use hazshield_ingest.Prelude.{
  ℕ, zero, suc, ◌%◌, ◌≤◌, ◌<◌, ◌≡◌, refl, none, some, List, [], ◌∷◌, length, get_elem?, arith,
}
use hazshield_ingest.Platform.{Platform}
use hazshield_ingest.Types.{Uuid}
use hazshield_ingest.Seed.Plant.{
  Kind, Sensor, Random, kinds, get_mod, kind_of, rng_at, draw, tuple, sensor,
}

pub get_elem?-some :
    {A : Type 0} (xs : List A) (n : ℕ) → n < length xs → (a : A) × (get_elem? xs n ≡ some a)
get_elem?-some [] n h = absurd (omega (arith, h))
get_elem?-some (x ∷ xs) zero h = (x, refl)
get_elem?-some (x ∷ xs) (suc n) h = get_elem?-some xs n (omega (arith, h))

pub kind_of-some : (n : ℕ) → (k : Kind) × (kind_of n ≡ some k)
kind_of-some n = get_elem?-some kinds (n % 9) (omega arith)

module _ {p : Platform} (r : Random p) where
  pub rng_at-some : (n : ℕ) → (rng : r.Rng) × (rng_at r n ≡ some rng)
  unfolding rng_at
  rng_at-some zero = (r.seed_from 9843, refl)
  rng_at-some (suc n) =
      let (rng, e) = rng_at-some n in
      let (k, e') = kind_of-some n in ((draw r k rng).1, rw (e, e') refl)

  -- The n-th sensor is made, with the asset and the kind that its number selects.
  pub sensor-some :
      (assets : List (Uuid × Uuid)) (n : ℕ)
      → 1 ≤ length assets
      → (asset : Uuid × Uuid) × (k : Kind) × (s : Sensor p) × (get_mod assets n ≡ some asset)
        × (kind_of n ≡ some k)
        × (sensor r assets n ≡ some s)
        × (s.zone_id ≡ asset.1)
        × (s.kind ≡ k.name)
  unfolding sensor tuple
  sensor-some [] n h = absurd (omega (arith, h))
  sensor-some (a ∷ assets) n h =
      let (asset, e) = get_elem?-some (a ∷ assets) (n % length (a ∷ assets)) (omega arith) in
      let (k, e') = kind_of-some n in
      let (rng, e'') = rng_at-some n in
      (asset, k, tuple r asset k (draw r k rng).0 n, e, e', rw (e, e', e'') refl, refl, refl)

  -- With no assets the remainder panics.
  pub sensor-none : (n : ℕ) → sensor r [] n ≡ none
  unfolding sensor
  sensor-none n = refl
