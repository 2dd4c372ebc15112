-- ===== src/System/Safe.antt =====
-- Where a violation is between the handlers of src/ingest.rs and the stream and spill file of
-- src/hot.rs: the relation that the runs of the whole gateway are stated with.
use hazshield_ingest.Prelude.{
  ℕ, ◌≤◌, ◌≡◌, ◌∙◌, sym, subst, ap, ◌⊎◌, inl, inr, List, [], ◌++◌, map, map-append, arith,
}
use hazshield_ingest.Platform.{Platform}
use hazshield_ingest.Types.{Violation}
use hazshield_ingest.Lane.Receiver.{Receiver}
use hazshield_ingest.Ingest.Gateway.{Services}
use hazshield_ingest.Warm.Database.{Postgres}
use hazshield_ingest.Hot.External.{Redis, Disk, bytes_of}
use hazshield_ingest.Hot.Kept.{Has, Has-append, Holds}
use hazshield_ingest.System.{System, dispatcher_of}

module _ {p : Platform} {e : Services p} {g : Postgres} {x : Redis} {k : Disk}
    (hot_rx : Receiver e.hot) (to_json : Violation p → List ℕ) where
  -- `q` is in the stream, in the file or in the hot channel.
  abbrev pub IsSomewhere : List ℕ → List (List ℕ) → System e g x k → Type 0
  IsSomewhere q ls s =
      Has q (x.stream s.dispatcher.server)
      ⊎ (Has q ls ⊎ Has q (map to_json (hot_rx.pending s.work.hot_tx)))

  -- From `s`, with the lines `ls` in the spill file, to `s'`, with the violations `vs` judged between.
  pub record Safe (ls : List (List ℕ)) (vs : List (Violation p)) (s s' : System e g x k)
      : Type 0 where
    pub file : List (List ℕ)
    pub holds : Holds file (dispatcher_of s')
    pub grows : s.work.metrics.hot_lost_total ≤ s'.work.metrics.hot_lost_total
    pub kept :
        s'.work.metrics.hot_lost_total ≡ s.work.metrics.hot_lost_total
        → (q : List ℕ) → IsSomewhere q ls s ⊎ Has q (map to_json vs)
        → IsSomewhere q file s'

  Safe-trans_at :
      (a b c : System e g x k) (ls : List (List ℕ)) (vs vs' : List (Violation p))
      (h : Safe ls vs a b)
      → Safe h.file vs' b c
      → Safe ls (vs ++ vs') a c
  Safe-trans_at a b c ls vs vs' h n = record {
    file = n.file;
    holds = n.holds;
    grows = omega (arith, h.grows, n.grows);
    kept = λ same q w.
        let same_ab : b.work.metrics.hot_lost_total ≡ a.work.metrics.hot_lost_total =
          omega (arith, h.grows, n.grows) in
        let same_bc : c.work.metrics.hot_lost_total ≡ b.work.metrics.hot_lost_total =
          omega (arith, h.grows, n.grows) in
        n.kept same_bc q (split same_ab q w);
  }
    where
      split :
          b.work.metrics.hot_lost_total ≡ a.work.metrics.hot_lost_total
          → (q : List ℕ) → IsSomewhere q ls a ⊎ Has q (map to_json (vs ++ vs'))
          → IsSomewhere q h.file b ⊎ Has q (map to_json vs')
      split same q (inl w) = inl (h.kept same q (inl w))
      split same q (inr w) =
          elim (Has-append q (map to_json vs) (map to_json vs')
            (subst (Has q) (map-append to_json vs vs') w)) [
              | inl new ↦ inl (h.kept same q (inr new))
              | inr later ↦ inr later
            ]

  pub Safe-trans :
      (a b c : System e g x k) (ls : List (List ℕ)) (vs vs' : List (Violation p))
      → Safe ls vs a b
      → ((file : List (List ℕ)) → Holds file (dispatcher_of b) → Safe file vs' b c)
      → Safe ls (vs ++ vs') a c
  Safe-trans a b c ls vs vs' h next = Safe-trans_at a b c ls vs vs' h (next h.file h.holds)

  -- An action that leaves the channel, the stream, the file and the count of losses alone.
  pub Safe-same :
      (ls : List (List ℕ)) (s s' : System e g x k)
      → Holds ls (dispatcher_of s)
      → s'.dispatcher ≡ s.dispatcher
      → s'.work.hot_tx ≡ s.work.hot_tx
      → s'.work.metrics.hot_lost_total ≡ s.work.metrics.hot_lost_total
      → Safe ls [] s s'
  Safe-same ls s s' v d c m = record {
    file = ls;
    holds = record {
      payloads = v.payloads;
      text = ap (λ t. bytes_of (k.content t.disk)) d ∙ v.text;
    };
    grows = omega arith;
    kept = λ same q w. go q w;
  }
    where
      go : (q : List ℕ) → IsSomewhere q ls s ⊎ ⊥ → IsSomewhere q ls s'
      go q (inl (inl h)) = inl (subst (λ t. Has q (x.stream t.server)) (sym d) h)
      go q (inl (inr (inl h))) = inr (inl h)
      go q (inl (inr (inr h))) =
          inr (inr (subst (λ t. Has q (map to_json (hot_rx.pending t))) (sym c) h))
      go q (inr h) = absurd h
