-- ===== src/Hot/Sample.antt =====
-- A small Redis that answers a number of commands before it goes down, and a disk that can be full.
use hazshield_ingest.Prelude.{
  ℕ, zero, suc, ◌+◌, ◌%◌, arith, ◌≡◌, refl, inl, Bool, true, false, Option, none, some, List, [],
  ◌∷◌, ◌++◌,
}
use hazshield_ingest.Platform.Sample.{sample}
use hazshield_ingest.Types.{Violation}
use hazshield_ingest.Hot.Spool.{newline, IsLine}
use hazshield_ingest.Hot.Order.{Exact, Reliable}
use hazshield_ingest.Hot.External.{Redis, Disk, bytes_of, WritesWhole}

-- The number of commands that will still be answered, and the stream.
abbrev Server : Type 0
Server = ℕ × List (List ℕ)

abbrev answer : Server → List ℕ → Bool × Server
answer (zero, entries) l = (false, (zero, entries))
answer (suc n, entries) l = (true, (n, entries ++ (l ∷ [])))

abbrev greet : Server → Bool × Server
greet (zero, entries) = (false, (zero, entries))
greet (suc n, entries) = (true, (suc n, entries))

pub greet-entries : (s : Server) → (greet s).1.1 ≡ s.1
greet-entries (zero, entries) = refl
greet-entries (suc n, entries) = refl

pub answer_ok :
    (s : Server) (l : List ℕ) → (answer s l).0 ≡ true → (answer s l).1.1 ≡ s.1 ++ (l ∷ [])
answer_ok (zero, entries) l h = cc
answer_ok (suc n, entries) l h = refl

pub answer_err : (s : Server) (l : List ℕ) → (answer s l).0 ≡ false → (answer s l).1.1 ≡ s.1
answer_err (zero, entries) l h = refl
answer_err (suc n, entries) l h = cc

abbrev pub redis : Redis
redis = record {
  Server = Server;
  connect = greet;
  xadd = answer;
  publish = λ s l. (true, s);
  stream = λ s. s.1;
  stream-connect = greet-entries;
  stream-publish = λ s l. refl;
  xadd_ok = answer_ok;
  xadd_err = λ s l h. inl (answer_err s l h);
}

-- Whether the disk can be written, and the file.
abbrev Files : Type 0
Files = Bool × Option (List ℕ)

abbrev put : Files → List ℕ → Bool × Files
put (true, file) bs = (true, (true, some bs))
put (false, file) bs = (false, (false, file))

abbrev put_line : Files → List ℕ → Bool × Files
put_line (w, file) l = put (w, file) (bytes_of file ++ (l ++ (newline ∷ [])))

abbrev delete : Files → Bool × Files
delete (true, file) = (true, (true, none))
delete (false, file) = (false, (false, file))

abbrev create : Files → Bool × Files
create (w, file) = put (w, file) (bytes_of file)

pub create-bytes : (d : Files) → bytes_of (create d).1.1 ≡ bytes_of d.1
create-bytes (true, file) = refl
create-bytes (false, file) = refl

pub put_ok : (d : Files) (bs : List ℕ) → (put d bs).0 ≡ true → bytes_of (put d bs).1.1 ≡ bs
put_ok (true, file) bs h = refl
put_ok (false, file) bs h = cc

pub put_err : (d : Files) (bs : List ℕ) → (put d bs).0 ≡ false → (put d bs).1.1 ≡ d.1
put_err (true, file) bs h = cc
put_err (false, file) bs h = refl

pub delete_ok : (d : Files) → (delete d).0 ≡ true → (delete d).1.1 ≡ none
delete_ok (true, file) h = refl
delete_ok (false, file) h = cc

pub delete_err : (d : Files) → (delete d).0 ≡ false → (delete d).1.1 ≡ d.1
delete_err (true, file) h = cc
delete_err (false, file) h = refl

abbrev pub disk : Disk
disk = record {
  State = Files;
  content = λ d. d.1;
  open_append = create;
  write_line = put_line;
  write = put;
  remove_file = delete;
  read_to_string = λ d. d.1;
  open_bytes = create-bytes;
  write_line_ok = λ d l h. put_ok d (bytes_of d.1 ++ (l ++ (newline ∷ []))) h;
  write_ok = put_ok;
  remove_ok = delete_ok;
  remove_err = delete_err;
  read_some = λ d bs h. h;
}

pub disk-WritesWhole : WritesWhole disk
disk-WritesWhole = record {
  write_line_err = λ d l h i. bytes_of (put_err d (bytes_of d.1 ++ (l ++ (newline ∷ []))) h i);
  write_err = λ d bs h i. bytes_of (put_err d bs h i);
}

pub redis-Exact : Exact redis
redis-Exact = record { xadd_same = answer_err }

-- A disk that is never full.
abbrev pub solid : Disk
solid = record {
  State = Option (List ℕ);
  content = λ d. d;
  open_append = λ d. (true, some (bytes_of d));
  write_line = λ d l. (true, some (bytes_of d ++ (l ++ (newline ∷ []))));
  write = λ d bs. (true, some bs);
  remove_file = λ d. (true, none);
  read_to_string = λ d. d;
  open_bytes = λ d. refl;
  write_line_ok = λ d l h. refl;
  write_ok = λ d bs h. refl;
  remove_ok = λ d h. refl;
  remove_err = λ d h. cc;
  read_some = λ d bs h. h;
}

pub solid-WritesWhole : WritesWhole solid
solid-WritesWhole = record { write_line_err = λ d l h. cc; write_err = λ d bs h. cc }

pub solid-Reliable : Reliable solid
solid-Reliable = record { write_done = λ d bs. refl; remove_done = λ d. refl; read_none = λ d h. h }

-- One letter in place of the JSON text.
abbrev pub letter : Violation sample → List ℕ
letter v = (97 + v.sensor_id % 26) ∷ []

pub letter-IsLine : (v : Violation sample) → IsLine (letter v)
letter-IsLine v = ((omega arith, tt), refl)
