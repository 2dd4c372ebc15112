-- ===== src/Limiter/Buckets.antt =====
-- DashMap as the limiter uses it: a map with one entry for each key, and its laws.
use hazshield_ingest.Prelude.{ℕ, ◌≡◌, ◌≢◌, refl, Option, none, some, List, [], ◌∷◌, arith, lookup}
use hazshield_ingest.Types.{Uuid}

pub record BucketMap (V : Type 0) : Type 1 where
  pub Map : Type 0
  pub new : Map
  pub get : Map → Uuid → Option V
  pub put : Map → Uuid → V → Map
  pub get-new : (k : Uuid) → get new k ≡ none
  pub get-put_self : (m : Map) (k : Uuid) (v : V) → get (put m k v) k ≡ some v
  pub get-put_ne : (m : Map) (k j : Uuid) (v : V) → k ≢ j → get (put m k v) j ≡ get m j

-- The list of the pairs put, the newest first, meets the laws.
module _ {V : Type 0} where
  pub lookup_self : (k : ℕ) (v : V) (m : List (ℕ × V)) → lookup k ((k, v) ∷ m) ≡ some v
  lookup_self k v m = ground arith

  pub lookup_ne : (k j : ℕ) (v : V) (m : List (ℕ × V)) → k ≢ j → lookup j ((k, v) ∷ m) ≡ lookup j m
  lookup_ne k j v m h = ground arith

abbrev pub pairs : (V : Type 0) → BucketMap V
pairs V = record {
  Map = List (ℕ × V);
  new = [];
  get = λ m k. lookup k m;
  put = λ m k v. (k, v) ∷ m;
  get-new = λ k. refl;
  get-put_self = λ m k v. lookup_self k v m;
  get-put_ne = λ m k j v h. lookup_ne k j v m h;
}
