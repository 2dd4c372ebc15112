-- ===== src/Warm/Database.antt =====
-- The database as `copy_rows` of src/warm.rs uses it: a connection from the pool, and one COPY on it.
-- `committed` lists the payloads of the COPYs that took effect, `pending` is the one being sent.
use hazshield_ingest.Prelude.{
  ℕ, ◌≡◌, ◌⊎◌, Bool, true, Option, none, some, List, [], ◌∷◌, ◌++◌, length,
}
use hazshield_ingest.Warm.Decode.{Tuple, decode}

pub record Postgres : Type 1 where
  pub Db : Type 0
  -- each call returns whether it succeeded; `finish` returns the number of rows
  pub acquire : Db → Bool × Db
  pub copy_in_raw : Db → Bool × Db
  pub send : Db → List ℕ → Bool × Db
  pub finish : Db → Option ℕ × Db
  pub committed : Db → List (List ℕ)
  pub pending : Db → List ℕ
  pub committed-acquire : (d : Db) → committed (acquire d).1 ≡ committed d
  pub committed-copy_in_raw : (d : Db) → committed (copy_in_raw d).1 ≡ committed d
  pub committed-send : (d : Db) (bs : List ℕ) → committed (send d bs).1 ≡ committed d
  pub pending-copy_in_raw : (d : Db) → pending (copy_in_raw d).1 ≡ []
  pub pending-send :
      (d : Db) (bs : List ℕ) → (send d bs).0 ≡ true → pending (send d bs).1 ≡ pending d ++ bs
  -- a COPY that succeeds has committed what was sent, and reports its rows
  pub finish_some :
      (d : Db) (n : ℕ)
      → (finish d).0 ≡ some n
      → (committed (finish d).1 ≡ committed d ++ (pending d ∷ []))
        × ((ts : List Tuple) → decode (pending d) ≡ some ts → n ≡ length ts)
  -- one that fails may have committed it all the same, if only the answer was lost
  pub finish_none :
      (d : Db)
      → (finish d).0 ≡ none
      → (committed (finish d).1 ≡ committed d)
        ⊎ (committed (finish d).1 ≡ committed d ++ (pending d ∷ []))
