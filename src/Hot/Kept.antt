-- ===== src/Hot/Kept.antt =====
-- The relation that at-least-once delivery by src/hot.rs is stated with: how the lines of the stream
-- and of the spill file go from one state of the dispatcher to a later one.
use hazshield_ingest.Prelude.{
  ℕ, ◌+◌, ◌≤◌, ◌≡◌, ◌∙◌, sym, subst, ap, ◌⊎◌, inl, inr, List, [], ◌∷◌, ◌++◌, arith,
}
use hazshield_ingest.Hot.Spool.{newline, text_of, IsLine, AllLines, text_of-append}
use hazshield_ingest.Hot.External.{Redis, Disk, bytes_of}
use hazshield_ingest.Hot.{Dispatcher}

-- `q` is one of the lines.
abbrev pub Has : List ℕ → List (List ℕ) → Type 0
Has q [] = ⊥
Has q (l ∷ ls) = (q ≡ l) ⊎ Has q ls

pub Has-append_left : (q : List ℕ) (xs ys : List (List ℕ)) → Has q xs → Has q (xs ++ ys)
Has-append_left q [] ys h = absurd h
Has-append_left q (x ∷ xs) ys (inl e) = inl e
Has-append_left q (x ∷ xs) ys (inr h) = inr (Has-append_left q xs ys h)

pub Has-append_right : (q : List ℕ) (xs ys : List (List ℕ)) → Has q ys → Has q (xs ++ ys)
Has-append_right q [] ys h = h
Has-append_right q (x ∷ xs) ys h = inr (Has-append_right q xs ys h)

pub Has-append : (q : List ℕ) (xs ys : List (List ℕ)) → Has q (xs ++ ys) → Has q xs ⊎ Has q ys
Has-append q [] ys h = inr h
Has-append q (x ∷ xs) ys (inl e) = inl (inl e)
Has-append q (x ∷ xs) ys (inr h) = elim (Has-append q xs ys h) [
  | inl a ↦ inl (inr a)
  | inr b ↦ inr b
]

pub AllLines-append : (xs ys : List (List ℕ)) → AllLines xs → AllLines ys → AllLines (xs ++ ys)
AllLines-append [] ys h k = k
AllLines-append (x ∷ xs) ys h k = (h.0, AllLines-append xs ys h.1 k)

pub AllLines-right : (xs ys : List (List ℕ)) → AllLines (xs ++ ys) → AllLines ys
AllLines-right [] ys h = h
AllLines-right (x ∷ xs) ys h = AllLines-right xs ys h.1

module _ {x : Redis} {k : Disk} where
  -- The spill file is the text of the lines `ls`, each a payload.
  pub record Holds (ls : List (List ℕ)) (t : Dispatcher x k) : Type 0 where
    pub payloads : AllLines ls
    pub text : bytes_of (k.content t.disk) ≡ text_of ls

  -- From `t`, with the lines `ls` in the file, to `t'`, with the payloads `ps` taken between.
  pub record Kept (ls ps : List (List ℕ)) (t t' : Dispatcher x k) : Type 0 where
    pub file : List (List ℕ)
    pub holds : Holds file t'
    pub grows : t.metrics.hot_lost_total ≤ t'.metrics.hot_lost_total
    pub kept :
        t'.metrics.hot_lost_total ≡ t.metrics.hot_lost_total
        → (q : List ℕ) → Has q (x.stream t.server) ⊎ (Has q ls ⊎ Has q ps)
        → Has q (x.stream t'.server) ⊎ Has q file

  Kept-trans_at :
      (a b c : Dispatcher x k) (ls ps ps' : List (List ℕ)) (h : Kept ls ps a b)
      → Kept h.file ps' b c
      → Kept ls (ps ++ ps') a c
  Kept-trans_at a b c ls ps ps' h k = record {
    file = k.file;
    holds = k.holds;
    grows = omega (arith, h.grows, k.grows);
    kept = λ e q w.
        let same_ab : b.metrics.hot_lost_total ≡ a.metrics.hot_lost_total =
          omega (arith, h.grows, k.grows) in
        let same_bc : c.metrics.hot_lost_total ≡ b.metrics.hot_lost_total =
          omega (arith, h.grows, k.grows) in
        k.kept same_bc q (split same_ab q w);
  }
    where
      through :
          (q : List ℕ)
          → Has q (x.stream b.server) ⊎ Has q h.file
          → Has q (x.stream b.server) ⊎ (Has q h.file ⊎ Has q ps')
      through q (inl s) = inl s
      through q (inr f) = inr (inl f)

      split :
          b.metrics.hot_lost_total ≡ a.metrics.hot_lost_total
          → (q : List ℕ) → Has q (x.stream a.server) ⊎ (Has q ls ⊎ Has q (ps ++ ps'))
          → Has q (x.stream b.server) ⊎ (Has q h.file ⊎ Has q ps')
      split e q (inl s) = through q (h.kept e q (inl s))
      split e q (inr (inl l)) = through q (h.kept e q (inr (inl l)))
      split e q (inr (inr r)) = elim (Has-append q ps ps' r) [
        | inl new ↦ through q (h.kept e q (inr (inr new)))
        | inr later ↦ inr (inr later)
      ]

  -- Two steps, the second from whatever lines the first left in the file.
  pub Kept-trans :
      (a b c : Dispatcher x k) (ls ps ps' : List (List ℕ))
      → Kept ls ps a b
      → ((file : List (List ℕ)) → Holds file b → Kept file ps' b c)
      → Kept ls (ps ++ ps') a c
  Kept-trans a b c ls ps ps' h next = Kept-trans_at a b c ls ps ps' h (next h.file h.holds)

  -- A step that loses nothing of the stream and leaves the file alone.
  pub Kept-still :
      (ls : List (List ℕ)) (t t' : Dispatcher x k)
      → Holds ls t
      → bytes_of (k.content t'.disk) ≡ bytes_of (k.content t.disk)
      → t'.metrics.hot_lost_total ≡ t.metrics.hot_lost_total
      → ((q : List ℕ) → Has q (x.stream t.server) → Has q (x.stream t'.server))
      → Kept ls [] t t'
  Kept-still ls t t' v d m s = record {
    file = ls;
    holds = record { payloads = v.payloads; text = d ∙ v.text };
    grows = omega arith;
    kept = λ e q w. go q w;
  }
    where
      go :
          (q : List ℕ)
          → Has q (x.stream t.server) ⊎ (Has q ls ⊎ ⊥)
          → Has q (x.stream t'.server) ⊎ Has q ls
      go q (inl h) = inl (s q h)
      go q (inr (inl h)) = inr h
      go q (inr (inr h)) = absurd h

  -- A payload that is lost is counted.
  pub Kept-lost :
      (ls : List (List ℕ)) (p : List ℕ) (t t' : Dispatcher x k)
      → Holds ls t
      → bytes_of (k.content t'.disk) ≡ bytes_of (k.content t.disk)
      → t'.metrics.hot_lost_total ≡ t.metrics.hot_lost_total + 1
      → Kept ls (p ∷ []) t t'
  Kept-lost ls p t t' v d m = record {
    file = ls;
    holds = record { payloads = v.payloads; text = d ∙ v.text };
    grows = omega arith;
    kept = λ e q w. absurd (omega arith);
  }

  pub Kept-spilled :
      (ls : List (List ℕ)) (p : List ℕ) (t t' : Dispatcher x k)
      → Holds ls t
      → IsLine p
      → bytes_of (k.content t'.disk) ≡ bytes_of (k.content t.disk) ++ (p ++ (newline ∷ []))
      → t'.metrics.hot_lost_total ≡ t.metrics.hot_lost_total
      → x.stream t'.server ≡ x.stream t.server
      → Kept ls (p ∷ []) t t'
  Kept-spilled ls p t t' v line d m s = record {
    file = ls ++ (p ∷ []);
    holds = record {
      payloads = AllLines-append ls (p ∷ []) v.payloads (line, tt);
      text = d ∙ ap (λ bs. bs ++ (p ++ (newline ∷ []))) v.text ∙ text_of-append ls p;
    };
    grows = omega arith;
    kept = λ e q w. go q w;
  }
    where
      go :
          (q : List ℕ)
          → Has q (x.stream t.server) ⊎ (Has q ls ⊎ ((q ≡ p) ⊎ ⊥))
          → Has q (x.stream t'.server) ⊎ Has q (ls ++ (p ∷ []))
      go q (inl h) = inl (subst (Has q) (sym s) h)
      go q (inr (inl h)) = inr (Has-append_left q ls (p ∷ []) h)
      go q (inr (inr h)) = inr (Has-append_right q ls (p ∷ []) h)
