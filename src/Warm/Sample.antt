-- ===== src/Warm/Sample.antt =====
-- A database that is up or down, and takes every payload that it can read.
use hazshield_ingest.Prelude.{
  ℕ, ◌-◌, ◌==◌, ◌≡◌, refl, inl, Bool, true, false, Option, none, some, List, [], ◌∷◌, ◌++◌, length,
  arith,
}
use hazshield_ingest.Warm.Decode.{Tuple, decode}
use hazshield_ingest.Warm.Database.{Postgres}

pub record Db : Type 0 where
  pub is_up : Bool
  pub pending : List ℕ
  pub committed : List (List ℕ)

abbrev pub up : Db
up = record { is_up = true; pending = []; committed = [] }

abbrev pub down : Db
down = record { is_up = false; pending = []; committed = [] }

abbrev pub end_copy : Option (List Tuple) → Db → Option ℕ × Db
end_copy none d = (none, d)
end_copy (some ts) d = (some (length ts), record d { committed = d.committed ++ (d.pending ∷ []) })

pub end_copy-some :
    (o : Option (List Tuple)) (d : Db) (n : ℕ)
    → (end_copy o d).0 ≡ some n
    → ((end_copy o d).1.committed ≡ d.committed ++ (d.pending ∷ []))
      × ((ts : List Tuple) → o ≡ some ts → n ≡ length ts)
end_copy-some none d n e = cc
end_copy-some (some us) d n e = (refl, λ ts q. ground (arith, q, e))

pub end_copy-none :
    (o : Option (List Tuple)) (d : Db)
    → (end_copy o d).0 ≡ none
    → (end_copy o d).1.committed ≡ d.committed
end_copy-none none d e = refl
end_copy-none (some us) d e = cc

abbrev pub server : Postgres
server = record {
  Db = Db;
  acquire = λ d. (d.is_up, d);
  copy_in_raw = λ d. (true, record d { pending = [] });
  send = λ d bs. (true, record d { pending = d.pending ++ bs });
  finish = λ d. end_copy (decode d.pending) d;
  committed = λ d. d.committed;
  pending = λ d. d.pending;
  committed-acquire = λ d. refl;
  committed-copy_in_raw = λ d. refl;
  committed-send = λ d bs. refl;
  pending-copy_in_raw = λ d. refl;
  pending-send = λ d bs h. refl;
  finish_some = λ d n e. end_copy-some (decode d.pending) d n e;
  finish_none = λ d e. inl (end_copy-none (decode d.pending) d e);
}

-- The same server behind a network that refuses the next so many connections.
abbrev pub flaky : Postgres
flaky = record {
  Db = ℕ × Db;
  acquire = λ d. (d.0 == 0, (d.0 - 1, d.1));
  copy_in_raw = λ d. (true, (d.0, record (d.1) { pending = [] }));
  send = λ d bs. (true, (d.0, record (d.1) { pending = d.1.pending ++ bs }));
  finish =
      λ d. ((end_copy (decode d.1.pending) d.1).0, (d.0, (end_copy (decode d.1.pending) d.1).1));
  committed = λ d. d.1.committed;
  pending = λ d. d.1.pending;
  committed-acquire = λ d. refl;
  committed-copy_in_raw = λ d. refl;
  committed-send = λ d bs. refl;
  pending-copy_in_raw = λ d. refl;
  pending-send = λ d bs h. refl;
  finish_some = λ d n e. end_copy-some (decode d.1.pending) d.1 n e;
  finish_none = λ d e. inl (end_copy-none (decode d.1.pending) d.1 e);
}
