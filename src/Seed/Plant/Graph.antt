-- ===== src/Seed/Plant/Graph.antt =====
-- The zones' graph that src/bin/seed.rs stores: its rows are symmetric and join every two zones.
use Prim.Native.String.{String}
use hazshield_ingest.Prelude.{
  ℕ, ◌≤◌, ◌<◌, ◌≡◌, refl, sym, subst, ◌⊎◌, inl, inr, some, List, [], ◌∷◌, ◌++◌, length, arith,
}
use hazshield_ingest.Seed.Plant.Indices.{get_elem?-some}
use hazshield_ingest.Types.{Uuid}
use hazshield_ingest.Seed.Plant.{Edge, spine, link, edges, cross_links, both_directions}

-- `x` is one of a list's entries.
abbrev pub IsIn : {A : Type 0} → A → List A → Type 0
IsIn x [] = ⊥
IsIn x (y ∷ ys) = (x ≡ y) ⊎ IsIn x ys

-- Rows lead from `a` to `b`, over any number of links.
pub data Joined (rows : List Edge) : Uuid → Uuid → Type 0 where
  here : {a : Uuid} → Joined rows a a
  over : {a b c : Uuid} (k : String) → IsIn (a, b, k) rows → Joined rows b c → Joined rows a c

module _ {rows : List Edge} where
  Joined-trans_behind :
      {b c : Uuid} → Joined rows b c → {a : Uuid} → Joined rows a b → Joined rows a c
  Joined-trans_behind j here = j
  Joined-trans_behind j (over k l i) = over k l (Joined-trans_behind j i)

  Joined-sym :
      ((a b : Uuid) (k : String) → IsIn (a, b, k) rows → IsIn (b, a, k) rows)
      → {a b : Uuid} → Joined rows a b
      → Joined rows b a
  Joined-sym s here = here
  Joined-sym s (over {a} {b} k l j) = Joined-trans_behind (over k (s a b k l) here) (Joined-sym s j)

both_directions-sym :
    (es : List Edge) (a b : Uuid) (k : String)
    → IsIn (a, b, k) (both_directions es)
    → IsIn (b, a, k) (both_directions es)
unfolding both_directions
both_directions-sym [] a b k h = absurd h
both_directions-sym (e ∷ es) a b k (inl h) = inr (inl cc)
both_directions-sym (e ∷ es) a b k (inr (inl h)) = inl cc
both_directions-sym (e ∷ es) a b k (inr (inr h)) = inr (inr (both_directions-sym es a b k h))

IsIn-both : (e : Edge) (es : List Edge) → IsIn e es → IsIn e (both_directions es)
unfolding both_directions
IsIn-both e [] h = absurd h
IsIn-both e (f ∷ es) (inl h) = inl h
IsIn-both e (f ∷ es) (inr h) = inr (inr (IsIn-both e es h))

IsIn-append : {A : Type 0} (x : A) (xs ys : List A) → IsIn x xs → IsIn x (xs ++ ys)
IsIn-append x [] ys h = absurd h
IsIn-append x (y ∷ xs) ys (inl h) = inl h
IsIn-append x (y ∷ xs) ys (inr h) = inr (IsIn-append x xs ys h)

-- The first zone is joined to each one when the passages of the spine are among the rows.
Joined-spine :
    (rows : List Edge) (z : Uuid) (zs : List Uuid)
    → ((e : Edge) → IsIn e (spine (z ∷ zs)) → IsIn e rows)
    → (b : Uuid) → IsIn b (z ∷ zs)
    → Joined rows z b
unfolding spine
Joined-spine rows z zs has b (inl h) = subst (λ t. Joined rows z t) (sym h) here
Joined-spine rows z [] has b (inr h) = absurd h
Joined-spine rows z (y ∷ zs) has b (inr h) =
    over "passage" (has (z, y, "passage") (inl refl))
      (Joined-spine rows y zs (λ e i. has e (inr i)) b h)

abbrev AllBelow : ℕ → List (ℕ × ℕ × String) → Type 0
AllBelow n [] = Unit {0}
AllBelow n (l ∷ ls) = ((l.0 < n) × (l.1 < n)) × AllBelow n ls

-- No index of a link is out of range.
link-some :
    (ls : List (ℕ × ℕ × String)) (zone_ids : List Uuid)
    → AllBelow (length zone_ids) ls
    → (es : List Edge) × (link ls zone_ids ≡ some es)
unfolding link
link-some [] zone_ids h = ([], refl)
link-some (l ∷ ls) zone_ids ((ha, hb), h) =
    let (a, ea) = get_elem?-some zone_ids l.0 ha in
    let (b, eb) = get_elem?-some zone_ids l.1 hb in
    let (es, e) = link-some ls zone_ids h in ((a, b, l.2) ∷ es, rw (ea, eb, e) refl)

cross_links-AllBelow : (n : ℕ) → 18 ≤ n → AllBelow n cross_links
cross_links-AllBelow n h =
    let below : (i : ℕ) → i < 18 → i < n = λ i b. omega (arith, h, b) in
    (
      (below 0 (omega arith), below 5 (omega arith)),
      (
        (below 1 (omega arith), below 5 (omega arith)),
        (
          (below 5 (omega arith), below 6 (omega arith)),
          (
            (below 10 (omega arith), below 0 (omega arith)),
            (
              (below 10 (omega arith), below 5 (omega arith)),
              (
                (below 11 (omega arith), below 6 (omega arith)),
                ((below 16 (omega arith), below 17 (omega arith)), tt),
              ),
            ),
          ),
        ),
      ),
    )

-- For 18 zones and more the edges are built, no index is out of range, and the rows that are sent
-- for them hold each link in both directions and join every two of the zones.
pub edges-Joined :
    (zone_ids : List Uuid)
    → 18 ≤ length zone_ids
    → (es : List Edge) × (edges zone_ids ≡ some es)
      × ((a b : Uuid) (k : String)
          → IsIn (a, b, k) (both_directions es)
          → IsIn (b, a, k) (both_directions es))
      × ((a b : Uuid) → IsIn a zone_ids → IsIn b zone_ids → Joined (both_directions es) a b)
unfolding edges
edges-Joined [] h = absurd (omega (arith, h))
edges-Joined (z ∷ zs) h =
    let (links, e) = link-some cross_links (z ∷ zs) (cross_links-AllBelow (length (z ∷ zs)) h) in
    let es = spine (z ∷ zs) ++ links in
    let at : (b : Uuid) → IsIn b (z ∷ zs) → Joined (both_directions es) z b =
      Joined-spine (both_directions es) z zs
        (λ x i. IsIn-both x es (IsIn-append x (spine (z ∷ zs)) links i)) in
    (
      es,
      rw e refl,
      both_directions-sym es,
      λ a b i j. Joined-trans_behind (at b j) (Joined-sym (both_directions-sym es) (at a i)),
    )
