-- ===== src/Hot/Spool.antt =====
-- The text of the spill file of src/hot.rs: `content.lines()` without empty lines, `join`, and the
-- text that appended lines make up.
use hazshield_ingest.Prelude.{
  ℕ, ◌≤◌, ◌≡◌, refl, ◌∙◌, ap, true, false, List, [], ◌∷◌, ◌++◌, append_assoc, append-nil, is_empty,
  arith, ◌==◌, if◌then◌else◌,
}

abbrev pub newline : ℕ
newline = 10

-- A line that ends in "\r\n" loses both.
abbrev pub strip_cr : List ℕ → List ℕ
strip_cr [] = []
strip_cr (x ∷ []) = if x == 13 then [] else x ∷ []
strip_cr (x ∷ y ∷ rest) = x ∷ strip_cr (y ∷ rest)

abbrev pub cons_line : List ℕ → List (List ℕ) → List (List ℕ)
cons_line [] rest = rest
cons_line (x ∷ xs) rest = (x ∷ xs) ∷ rest

-- `lines().filter(|l| !l.is_empty())`, with the beginning of the current line.
unfoldable pub lines_from : List ℕ → List ℕ → List (List ℕ)
lines_from line [] = cons_line line []
lines_from line (b ∷ bs) = elim (b == newline) [
  | true ↦ cons_line (strip_cr line) (lines_from [] bs)
  | false ↦ lines_from (line ++ (b ∷ [])) bs
]

unfoldable pub lines : List ℕ → List (List ℕ)
lines bs = lines_from [] bs

-- `join("\n")`
unfoldable pub join : List (List ℕ) → List ℕ
join [] = []
join (l ∷ []) = l
join (l ∷ k ∷ ls) = l ++ (newline ∷ join (k ∷ ls))

-- What `writeln!` appends for each line in turn.
abbrev pub text_of : List (List ℕ) → List ℕ
text_of [] = []
text_of (l ∷ ls) = l ++ (newline ∷ text_of ls)

-- A payload: not empty, and with no control characters (JSON escapes them).
abbrev pub Printable : List ℕ → Type 0
Printable [] = Unit {0}
Printable (b ∷ bs) = (32 ≤ b) × Printable bs

abbrev pub IsLine : List ℕ → Type 0
IsLine l = Printable l × (is_empty l ≡ false)

abbrev pub AllLines : List (List ℕ) → Type 0
AllLines [] = Unit {0}
AllLines (l ∷ ls) = IsLine l × AllLines ls

strip_cr-Printable : (l : List ℕ) → Printable l → strip_cr l ≡ l
strip_cr-Printable [] h = refl
strip_cr-Printable (x ∷ []) h = ground (arith, h.0)
strip_cr-Printable (x ∷ y ∷ rest) h = ap (λ t. x ∷ t) (strip_cr-Printable (y ∷ rest) h.1)

lines_from-line :
    (line l rest : List ℕ)
    → Printable l
    → lines_from line (l ++ (newline ∷ rest))
      ≡ cons_line (strip_cr (line ++ l)) (lines_from [] rest)
unfolding lines_from
lines_from-line line [] rest h = rw append-nil refl
lines_from-line line (b ∷ l) rest h =
    let plain : (b == newline) ≡ false = ground (arith, h.0) in
    rw (plain, lines_from) (lines_from-line (line ++ (b ∷ [])) l rest h.1 ∙ rw append_assoc refl)

cons_line-IsLine :
    (l : List ℕ) (rest : List (List ℕ)) → is_empty l ≡ false → cons_line l rest ≡ l ∷ rest
cons_line-IsLine [] rest h = cc
cons_line-IsLine (x ∷ l) rest h = refl

-- The lines that were appended are read back.
pub lines-text_of : (ls : List (List ℕ)) → AllLines ls → lines (text_of ls) ≡ ls
unfolding lines lines_from
lines-text_of [] h = refl
lines-text_of (l ∷ ls) h =
    lines_from-line [] l (text_of ls) h.0.0
    ∙ rw (strip_cr-Printable l h.0.0, cons_line-IsLine l (lines_from [] (text_of ls)) h.0.1)
        (ap (λ t. l ∷ t) (lines-text_of ls h.1))

-- The rewritten file is the text of the remaining lines.
pub join-text_of :
    (l : List ℕ) (ls : List (List ℕ)) → join (l ∷ ls) ++ (newline ∷ []) ≡ text_of (l ∷ ls)
unfolding join
join-text_of l [] = refl
join-text_of l (k ∷ ls) =
    append_assoc l (newline ∷ join (k ∷ ls)) (newline ∷ [])
    ∙ ap (λ t. l ++ (newline ∷ t)) (join-text_of k ls)

pub text_of-append :
    (ls : List (List ℕ)) (l : List ℕ)
    → text_of ls ++ (l ++ (newline ∷ [])) ≡ text_of (ls ++ (l ∷ []))
text_of-append [] l = refl
text_of-append (k ∷ ls) l =
    append_assoc k (newline ∷ text_of ls) (l ++ (newline ∷ []))
    ∙ ap (λ t. k ++ (newline ∷ t)) (text_of-append ls l)
