-- ===== src/Metrics/Registration/Names.antt =====
-- The names of metrics and labels that the prometheus crate allows.
use Prim.Native.Char.{code}
use Prim.Native.String.{String, [], ◌∷◌}
use hazshield_ingest.Prelude.{ℕ, Bool, true, false, ◌&&◌, ◌||◌, leb, ◌==◌}

abbrev between : ℕ → ℕ → ℕ → Bool
between low high n = leb low n && leb n high

-- `[a-zA-Z_:]`, and with digits.
abbrev is_start : ℕ → Bool
is_start n = between 97 122 n || (between 65 90 n || (n == 95 || n == 58))

abbrev are_letters : String → Bool
are_letters [] = true
are_letters (c ∷ s) = (is_start (code c) || between 48 57 (code c)) && are_letters s

abbrev pub is_valid_name : String → Bool
is_valid_name [] = false
is_valid_name (c ∷ s) = is_start (code c) && are_letters s

abbrev pub is_text : String → Bool
is_text [] = false
is_text (c ∷ s) = true
