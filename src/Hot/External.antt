-- ===== src/Hot/External.antt =====
-- Redis and the file system as src/hot.rs uses them. `stream` lists the entries ever added to the
-- stream; `content` is the spill file, `none` where there is no such file.
use hazshield_ingest.Prelude.{
  ℕ, ◌≡◌, ◌⊎◌, Bool, true, false, Option, none, some, List, [], ◌∷◌, ◌++◌,
}
use hazshield_ingest.Hot.Spool.{newline}

pub record Redis : Type 1 where
  pub Server : Type 0
  -- `get_multiplexed_async_connection`, and the two commands; true for `Ok`
  pub connect : Server → Bool × Server
  pub xadd : Server → List ℕ → Bool × Server
  pub publish : Server → List ℕ → Bool × Server
  pub stream : Server → List (List ℕ)
  pub stream-connect : (s : Server) → stream (connect s).1 ≡ stream s
  pub stream-publish : (s : Server) (l : List ℕ) → stream (publish s l).1 ≡ stream s
  pub xadd_ok :
      (s : Server) (l : List ℕ) → (xadd s l).0 ≡ true → stream (xadd s l).1 ≡ stream s ++ (l ∷ [])
  -- a command that fails may have taken effect, if only the answer was lost
  pub xadd_err :
      (s : Server) (l : List ℕ)
      → (xadd s l).0 ≡ false
      → (stream (xadd s l).1 ≡ stream s) ⊎ (stream (xadd s l).1 ≡ stream s ++ (l ∷ []))

abbrev pub bytes_of : Option (List ℕ) → List ℕ
bytes_of none = []
bytes_of (some bs) = bs

pub record Disk : Type 1 where
  pub State : Type 0
  pub content : State → Option (List ℕ)
  -- opening for append, `writeln!` on the open file, `write`, `remove_file`: true for `Ok`
  pub open_append : State → Bool × State
  pub write_line : State → List ℕ → Bool × State
  pub write : State → List ℕ → Bool × State
  pub remove_file : State → Bool × State
  pub read_to_string : State → Option (List ℕ)
  pub open_bytes : (d : State) → bytes_of (content (open_append d).1) ≡ bytes_of (content d)
  pub write_line_ok :
      (d : State) (l : List ℕ)
      → (write_line d l).0 ≡ true
      → bytes_of (content (write_line d l).1) ≡ bytes_of (content d) ++ (l ++ (newline ∷ []))
  pub write_ok :
      (d : State) (bs : List ℕ) → (write d bs).0 ≡ true → bytes_of (content (write d bs).1) ≡ bs
  pub remove_ok : (d : State) → (remove_file d).0 ≡ true → content (remove_file d).1 ≡ none
  pub remove_err : (d : State) → (remove_file d).0 ≡ false → content (remove_file d).1 ≡ content d
  pub read_some : (d : State) (bs : List ℕ) → read_to_string d ≡ some bs → content d ≡ some bs

-- A disk on which a write that fails leaves the file as it was.
pub record WritesWhole (k : Disk) : Type 0 where
  pub write_line_err :
      (d : k.State) (l : List ℕ)
      → (k.write_line d l).0 ≡ false
      → bytes_of (k.content (k.write_line d l).1) ≡ bytes_of (k.content d)
  pub write_err :
      (d : k.State) (bs : List ℕ)
      → (k.write d bs).0 ≡ false
      → bytes_of (k.content (k.write d bs).1) ≡ bytes_of (k.content d)
