-- ===== src/Metrics/Registration/Documented.antt =====
-- What the prometheus crate documents, for `Metrics::new` of src/metrics.rs.
use Prim.Native.String.{String}
use text.Mathlib.Text.{◌==◌}
use hazshield_ingest.Prelude.{
  ℕ, ◌≡◌, Bool, true, ◌&&◌, not, Option, some, List, [], ◌∷◌, ◌++◌, map, ltb,
}
use hazshield_ingest.Metrics.Registration.{Prometheus}
use hazshield_ingest.Metrics.Registration.Names.{is_valid_name, is_text}

abbrev pub is_new : String → List String → Bool
is_new n [] = true
is_new n (m ∷ ms) = not (n == m) && is_new n ms

abbrev pub are_new : List String → List String → Bool
are_new ns [] = true
are_new ns (m ∷ ms) = is_new m ns && are_new (ns ++ (m ∷ [])) ms

abbrev pub are_valid : List String → Bool
are_valid [] = true
are_valid (n ∷ ns) = is_valid_name n && are_valid ns

-- `a` is below the first of an increasing list.
abbrev pub increasing_from : ℕ → List ℕ → Bool
increasing_from a [] = true
increasing_from a (b ∷ bs) = ltb a b && increasing_from b bs

abbrev pub Made : (x : Prometheus) → String → Option x.Metric → Type 0
Made x n made = (c : x.Metric) × (made ≡ some c) × (x.name_of c ≡ n)

-- What the crate documents: a metric is made under a valid name with a help text, with valid labels
-- and with increasing buckets; and a registry takes every metric whose name it does not have yet.
pub record Documented (x : Prometheus) : Type 0 where
  pub counter_made :
      (n h : String) → is_valid_name n ≡ true → is_text h ≡ true → Made x n (x.int_counter n h)
  pub vec_made :
      (n h : String) (labels : List String)
      → is_valid_name n ≡ true
      → is_text h ≡ true
      → are_valid labels ≡ true
      → Made x n (x.int_counter_vec n h labels)
  pub gauge_made :
      (n h : String) → is_valid_name n ≡ true → is_text h ≡ true → Made x n (x.int_gauge n h)
  pub histogram_made :
      (n h : String) (b : ℕ) (bs : List ℕ)
      → is_valid_name n ≡ true
      → is_text h ≡ true
      → increasing_from b bs ≡ true
      → Made x n (x.histogram n h (b ∷ bs))
  pub starts_empty : x.registered x.registry ≡ []
  pub takes_new :
      (c : x.Metric) (r : x.Registry)
      → is_new (x.name_of c) (map x.name_of (x.registered r)) ≡ true
      → (r' : x.Registry) × (x.register c r ≡ some r')
        × (x.registered r' ≡ x.registered r ++ (c ∷ []))
