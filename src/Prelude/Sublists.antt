-- ===== src/Prelude/Sublists.antt =====
-- Lists with some entries left out, in order; and the concatenation of a list of lists.
use Prim.Native.Nat.{ℕ, zero, suc, ◌≤◌}
use mathlib.Core.Path.{◌≡◌, refl, ap}
use mathlib.Core.List.{List, [], ◌∷◌, ◌++◌, append_assoc}
use native.Mathlib.Omega.{arith}
use hazshield_ingest.Prelude.Lists.{length, drop}

pub data Sub {A : Type 0} : List A → List A → Type 0 where
  stop : Sub [] []
  keep : {x : A} {xs ys : List A} → Sub xs ys → Sub (x ∷ xs) (x ∷ ys)
  skip : {y : A} {xs ys : List A} → Sub xs ys → Sub xs (y ∷ ys)

module _ {A : Type 0} where
  abbrev pub flat : List (List A) → List A
  flat [] = []
  flat (xs ∷ xss) = xs ++ flat xss

  pub flat-append : (xss yss : List (List A)) → flat (xss ++ yss) ≡ flat xss ++ flat yss
  flat-append [] yss = refl
  flat-append (xs ∷ xss) yss = rw (flat-append xss yss, append_assoc) refl

  pub Sub-refl : (xs : List A) → Sub xs xs
  Sub-refl [] = stop
  Sub-refl (x ∷ xs) = keep (Sub-refl xs)

  Sub-trans_behind : {b c : List A} → Sub b c → {a : List A} → Sub a b → Sub a c
  Sub-trans_behind stop s = s
  Sub-trans_behind (keep t) (keep s) = keep (Sub-trans_behind t s)
  Sub-trans_behind (keep t) (skip s) = skip (Sub-trans_behind t s)
  Sub-trans_behind (skip t) s = skip (Sub-trans_behind t s)

  pub Sub-trans : {a b c : List A} → Sub a b → Sub b c → Sub a c
  Sub-trans s t = Sub-trans_behind t s

  pub Sub-append : {a b c d : List A} → Sub a b → Sub c d → Sub (a ++ c) (b ++ d)
  Sub-append stop t = t
  Sub-append (keep s) t = keep (Sub-append s t)
  Sub-append (skip s) t = skip (Sub-append s t)

  pub Sub-drop : (n : ℕ) (xs : List A) → Sub (drop n xs) xs
  Sub-drop zero xs = Sub-refl xs
  Sub-drop (suc n) [] = stop
  Sub-drop (suc n) (x ∷ xs) = skip (Sub-drop n xs)

  pub Sub-extend : {a b : List A} (c : List A) → Sub a b → Sub a (b ++ c)
  Sub-extend [] stop = stop
  Sub-extend (y ∷ c) stop = skip (Sub-extend c stop)
  Sub-extend c (keep s) = keep (Sub-extend c s)
  Sub-extend c (skip s) = skip (Sub-extend c s)

  pub Sub-length : {a b : List A} → Sub a b → length a ≤ length b
  Sub-length stop = omega arith
  Sub-length (keep s) = omega (arith, Sub-length s)
  Sub-length (skip s) = omega (arith, Sub-length s)

  -- Nothing is left out of a list of the same length.
  pub eq_of_Sub : {a b : List A} → Sub a b → length a ≡ length b → a ≡ b
  eq_of_Sub stop h = refl
  eq_of_Sub (keep {x = x} s) h = ap (λ t. x ∷ t) (eq_of_Sub s (omega arith))
  eq_of_Sub (skip s) h = absurd (omega (arith, Sub-length s))
