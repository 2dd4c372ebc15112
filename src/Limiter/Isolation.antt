-- ===== src/Limiter/Isolation.antt =====
-- Sensors of src/limiter.rs do not share budget: the answers to one sensor are those that it would
-- get if the others made no call.
use hazshield_ingest.Prelude.{
  ℕ, ◌≡◌, ◌≢◌, refl, Bool, arith, Bool-cases, inl, inr, List, [], ◌∷◌, ◌==◌, ==_iff, ==_self, ap₂,
  ◌∙◌, if◌then◌else◌,
}
use hazshield_ingest.Platform.{Platform}
use hazshield_ingest.Types.{Uuid}
use hazshield_ingest.Limiter.{Bucket, allow, run}
use hazshield_ingest.Limiter.Buckets.{BucketMap}

-- The calls, and the answers, of one sensor.
module _ (p : Platform) where
  abbrev pub calls_of : Uuid → List (Uuid × p.F32 × ℕ) → List (Uuid × p.F32 × ℕ)
  calls_of k [] = []
  calls_of k ((id, hz, now) ∷ calls) =
      if id == k then (id, hz, now) ∷ calls_of k calls else calls_of k calls

abbrev pub answers_of : Uuid → List (Uuid × Bool) → List (Uuid × Bool)
answers_of k [] = []
answers_of k ((id, g) ∷ rest) = if id == k then (id, g) ∷ answers_of k rest else answers_of k rest

module _ (p : Platform) (s : BucketMap (Bucket p)) where
  pub get-allow_ne :
      (m : s.Map) (id k : Uuid) (hz : p.F32) (now : ℕ)
      → id ≢ k
      → s.get (allow p s m id hz now).1 k ≡ s.get m k
  unfolding allow
  get-allow_ne m id k hz now h = s.get-put_ne m id k _ h

  -- A call reads and writes the map at its own sensor only.
  get-allow_cong :
      (m m' : s.Map) (k : Uuid) (hz : p.F32) (now : ℕ)
      → s.get m k ≡ s.get m' k
      → s.get (allow p s m k hz now).1 k ≡ s.get (allow p s m' k hz now).1 k
  unfolding allow
  get-allow_cong m m' k hz now e = rw (s.get-put_self m k _, s.get-put_self, e)

  answer_cong :
      (m m' : s.Map) (k : Uuid) (hz : p.F32) (now : ℕ)
      → s.get m k ≡ s.get m' k
      → (allow p s m k hz now).0 ≡ (allow p s m' k hz now).0
  unfolding allow
  answer_cong m m' k hz now e = rw e

  isolated :
      (m m' : s.Map) (k : Uuid) (calls : List (Uuid × p.F32 × ℕ))
      → s.get m k ≡ s.get m' k
      → answers_of k (run p s m calls) ≡ answers_of k (run p s m' (calls_of p k calls))
  unfolding run
  isolated m m' k [] e = refl
  isolated m m' k ((id, hz, now) ∷ calls) e = elim (Bool-cases (id == k)) [
    | inl same ↦
        let here : id ≡ k = (==_iff id k).0 same in
        let rest =
          isolated (allow p s m k hz now).1 (allow p s m' k hz now).1 k calls
            (get-allow_cong m m' k hz now e) in
        rw (here, ==_self k, ==_self k) (ap₂ (λ g r. (k, g) ∷ r) (answer_cong m m' k hz now e) rest)
    | inr other ↦ rw other (
        isolated (allow p s m id hz now).1 m' k calls
          (get-allow_ne m id k hz now (λ q. absurd (ground (arith, q, other))) ∙ e))
  ]

  -- In any sequence of calls, the answers to one sensor are the answers that its own calls alone
  -- get from the same state.
  pub run_isolated :
      (m : s.Map) (k : Uuid) (calls : List (Uuid × p.F32 × ℕ))
      → answers_of k (run p s m calls) ≡ answers_of k (run p s m (calls_of p k calls))
  run_isolated m k calls = isolated m m k calls refl
