-- ===== src/Hot/Order.antt =====
-- The order of the hot lane of src/hot.rs: the stream, then the spill file, hold the violations in
-- the order in which they were received.
use hazshield_ingest.Prelude.{
  ℕ, ◌≤◌, ◌≡◌, refl, ◌∙◌, sym, ap, inl, inr, Bool, true, false, none, List, [], ◌∷◌, ◌++◌,
  append_assoc, append-nil, arith, Bool-cases, if◌then◌else◌,
}
use hazshield_ingest.Hot.Spool.{text_of}
use hazshield_ingest.Hot.External.{Redis, Disk, bytes_of}
use hazshield_ingest.Hot.Replay.{xadd_and_publish-ok}
use hazshield_ingest.Hot.Kept.{Holds}
use hazshield_ingest.Hot.{Dispatcher, xadd_and_publish, replay_lines}

-- A Redis of which a command that fails has had no effect.
pub record Exact (x : Redis) : Type 0 where
  pub xadd_same :
      (s : x.Server) (l : List ℕ) → (x.xadd s l).0 ≡ false → x.stream (x.xadd s l).1 ≡ x.stream s

-- A disk that can always rewrite, remove and read the spill file; appending a line may fail.
pub record Reliable (k : Disk) : Type 0 where
  pub write_done : (d : k.State) (bs : List ℕ) → (k.write d bs).0 ≡ true
  pub remove_done : (d : k.State) → (k.remove_file d).0 ≡ true
  pub read_none : (d : k.State) → k.read_to_string d ≡ none → k.content d ≡ none

pub text_of-nil : (ls : List (List ℕ)) → text_of ls ≡ [] → ls ≡ []
text_of-nil [] h = refl
text_of-nil ([] ∷ ls) h = cc
text_of-nil ((b ∷ l) ∷ ls) h = cc

module _ {x : Redis} (exact : Exact x) where
  pub xadd_and_publish-same :
      (s : x.Server) (l : List ℕ)
      → (xadd_and_publish x s l).0 ≡ false
      → x.stream (xadd_and_publish x s l).1 ≡ x.stream s
  unfolding xadd_and_publish
  xadd_and_publish-same s l h = elim (Bool-cases (x.xadd s l).0) [
    | inl added ↦ absurd (ground (arith, h, added))
    | inr failed ↦ rw failed (exact.xadd_same s l failed)
  ]

  -- The stream, then the lines that are left.
  pub replay_lines-order :
      (ls : List (List ℕ)) (s : x.Server)
      → x.stream (replay_lines x s ls).1 ++ (replay_lines x s ls).0 ≡ x.stream s ++ ls
  unfolding replay_lines
  replay_lines-order [] s = refl
  replay_lines-order (line ∷ rest) s = elim (Bool-cases (xadd_and_publish x s line).0) [
    | inl sent ↦
        rw (sent, replay_lines)
          (replay_lines-order rest (xadd_and_publish x s line).1
            ∙ ap (λ e. e ++ rest) (xadd_and_publish-ok x s line sent)
            ∙ append_assoc (x.stream s) (line ∷ []) rest)
    | inr failed ↦
        rw (failed, replay_lines)
          (ap (λ e. e ++ (line ∷ rest)) (xadd_and_publish-same s line failed))
  ]

module _ {x : Redis} {k : Disk} where
  -- With a connection there are no lines in the file.
  abbrev pub Live : List (List ℕ) → Dispatcher x k → Type 0
  Live ls t = t.conn ≡ true → ls ≡ []

  -- From `t`, with the lines `ls` in the file, to `t'`, with the payloads `ps` taken between.
  pub record Ordered (ls ps : List (List ℕ)) (t t' : Dispatcher x k) : Type 0 where
    pub file : List (List ℕ)
    pub holds : Holds file t'
    pub live : Live file t'
    pub grows : t.metrics.hot_lost_total ≤ t'.metrics.hot_lost_total
    pub order :
        t'.metrics.hot_lost_total ≡ t.metrics.hot_lost_total
        → x.stream t'.server ++ file ≡ (x.stream t.server ++ ls) ++ ps

  Ordered-trans_at :
      (a b c : Dispatcher x k) (ls ps ps' : List (List ℕ)) (h : Ordered ls ps a b)
      → Ordered h.file ps' b c
      → Ordered ls (ps ++ ps') a c
  Ordered-trans_at a b c ls ps ps' h g = record {
    file = g.file;
    holds = g.holds;
    live = g.live;
    grows = omega (arith, h.grows, g.grows);
    order = λ e.
        let same_ab : b.metrics.hot_lost_total ≡ a.metrics.hot_lost_total =
          omega (arith, h.grows, g.grows) in
        let same_bc : c.metrics.hot_lost_total ≡ b.metrics.hot_lost_total =
          omega (arith, h.grows, g.grows) in
        g.order same_bc
        ∙ ap (λ e. e ++ ps') (h.order same_ab)
        ∙ append_assoc (x.stream a.server ++ ls) ps ps';
  }

  pub Ordered-trans :
      (a b c : Dispatcher x k) (ls ps ps' : List (List ℕ))
      → Ordered ls ps a b
      → ((file : List (List ℕ)) → Holds file b → Live file b → Ordered file ps' b c)
      → Ordered ls (ps ++ ps') a c
  Ordered-trans a b c ls ps ps' h next =
      Ordered-trans_at a b c ls ps ps' h (next h.file h.holds h.live)

  -- A step that changes neither the stream nor the file.
  pub Ordered-same :
      (ls : List (List ℕ)) (t t' : Dispatcher x k)
      → Holds ls t
      → Live ls t'
      → t'.disk ≡ t.disk
      → t'.metrics.hot_lost_total ≡ t.metrics.hot_lost_total
      → x.stream t'.server ≡ x.stream t.server
      → Ordered ls [] t t'
  Ordered-same ls t t' v live d m s = record {
    file = ls;
    holds = record { payloads = v.payloads; text = ap (λ e. bytes_of (k.content e)) d ∙ v.text };
    live = live;
    grows = omega arith;
    order = λ _. ap (λ e. e ++ ls) s ∙ sym (append-nil (x.stream t.server ++ ls));
  }

  pub Ordered-if :
      (ls ps : List (List ℕ)) (t u w : Dispatcher x k) (b : Bool)
      → (b ≡ true → Ordered ls ps t u)
      → (b ≡ false → Ordered ls ps t w)
      → Ordered ls ps t (if b then u else w)
  Ordered-if ls ps t u w true h g = h refl
  Ordered-if ls ps t u w false h g = g refl
