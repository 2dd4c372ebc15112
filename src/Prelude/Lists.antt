-- ===== src/Prelude/Lists.antt =====
-- Lists measured by native numbers, under the library's names, and finite maps as lists of pairs.
use Prim.Native.Nat.{ℕ, zero, suc, ◌+◌, ◌-◌}
use mathlib.Core.Path.{◌≡◌, refl, ap}
use mathlib.Core.Bool.{Bool, true, false}
use mathlib.Core.List.{List, [], ◌∷◌, ◌++◌, map}
use mathlib.Core.Option.{Option, none, some}
use native.Mathlib.Omega.{arith}
use hazshield_ingest.Prelude.Tests.{◌==◌, if◌then◌else◌}

module _ {ℓ} {A : Type ℓ} where
  abbrev pub length : List A → ℕ
  length [] = 0
  length (x ∷ xs) = suc (length xs)

  abbrev pub take : ℕ → List A → List A
  take zero xs = []
  take (suc n) [] = []
  take (suc n) (x ∷ xs) = x ∷ take n xs

  abbrev pub drop : ℕ → List A → List A
  drop zero xs = xs
  drop (suc n) [] = []
  drop (suc n) (x ∷ xs) = drop n xs

  abbrev pub is_empty : List A → Bool
  is_empty [] = true
  is_empty (x ∷ xs) = false

  abbrev pub get_elem? : List A → ℕ → Option A
  get_elem? [] n = none
  get_elem? (x ∷ xs) zero = some x
  get_elem? (x ∷ xs) (suc n) = get_elem? xs n

  -- The entry at an index, and `x` where there is none.
  abbrev pub get_or : A → List A → ℕ → A
  get_or x [] n = x
  get_or x (y ∷ ys) zero = y
  get_or x (y ∷ ys) (suc n) = get_or x ys n

  pub nil_of_length : (xs : List A) → length xs ≡ 0 → xs ≡ []
  nil_of_length [] h = refl
  nil_of_length (y ∷ ys) h = absurd (omega (arith, h))

  pub length-append : (xs ys : List A) → length (xs ++ ys) ≡ length xs + length ys
  length-append [] ys = omega arith
  length-append (x ∷ xs) ys = omega (arith, length-append xs ys)

  pub take-append-drop : (n : ℕ) (xs : List A) → take n xs ++ drop n xs ≡ xs
  take-append-drop zero xs = refl
  take-append-drop (suc n) [] = refl
  take-append-drop (suc n) (x ∷ xs) = ap (λ t. x ∷ t) (take-append-drop n xs)

  pub length-drop : (n : ℕ) (xs : List A) → length (drop n xs) ≡ length xs - n
  length-drop zero xs = omega arith
  length-drop (suc n) [] = omega arith
  length-drop (suc n) (x ∷ xs) = omega (arith, length-drop n xs)

module _ {ℓ} {A : Type ℓ} where
  -- The options that hold a value, in order.
  abbrev pub to_list : Option A → List A
  to_list none = []
  to_list (some a) = a ∷ []

module _ {ℓ κ} {A : Type ℓ} {B : Type κ} where
  pub length-map : (f : A → B) (xs : List A) → length (map f xs) ≡ length xs
  length-map f [] = refl
  length-map f (x ∷ xs) = ap suc (length-map f xs)

  abbrev pub collect_some : (A → Option B) → List A → List B
  collect_some f [] = []
  collect_some f (x ∷ xs) = to_list (f x) ++ collect_some f xs

-- A `HashMap` as a list of entries, one for each key.
module _ {ℓ} {V : Type ℓ} where
  abbrev pub lookup : ℕ → List (ℕ × V) → Option V
  lookup key [] = none
  lookup key (entry ∷ rest) = if entry.0 == key then some entry.1 else lookup key rest

  -- An entry with the key is replaced where it stands; a new key goes to the end.
  abbrev pub insert : ℕ → V → List (ℕ × V) → List (ℕ × V)
  insert key value [] = (key, value) ∷ []
  insert key value (entry ∷ rest) =
      if key == entry.0 then (key, value) ∷ rest else entry ∷ insert key value rest

  pub lookup-insert :
      (entries : List (ℕ × V)) (key other : ℕ) (value : V)
      → lookup other (insert key value entries)
        ≡ (if other == key then some value else lookup other entries)
  lookup-insert [] key other value = ground arith
  lookup-insert (entry ∷ rest) key other value = ground (arith, lookup-insert rest key other value)
