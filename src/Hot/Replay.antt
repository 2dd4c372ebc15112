-- ===== src/Hot/Replay.antt =====
-- `xadd_and_publish` and `replay_spill` of src/hot.rs: what a replay adds to the stream, in which
-- order, and what it leaves in the file.
use hazshield_ingest.Prelude.{
  ℕ, ◌+◌, ◌≡◌, ◌≢◌, refl, ◌∙◌, sym, ap, ◌⊎◌, inl, inr, Bool, true, false, none, some, List, [], ◌∷◌,
  ◌++◌, append_assoc, append-nil, length, length-append, arith, Bool-cases,
}
use hazshield_ingest.Hot.Spool.{text_of, AllLines, lines-text_of, join-text_of}
use hazshield_ingest.Hot.External.{Redis, Disk, bytes_of}
use hazshield_ingest.Hot.{
  Dispatcher, xadd_and_publish, replay_lines, end_replay, replay_file, replay_spill,
}

module _ (x : Redis) where
  pub xadd_and_publish-ok :
      (s : x.Server) (l : List ℕ)
      → (xadd_and_publish x s l).0 ≡ true
      → x.stream (xadd_and_publish x s l).1 ≡ x.stream s ++ (l ∷ [])
  unfolding xadd_and_publish
  xadd_and_publish-ok s l h = elim (Bool-cases (x.xadd s l).0) [
    | inl added ↦ rw added (x.stream-publish (x.xadd s l).1 l ∙ x.xadd_ok s l added)
    | inr failed ↦ absurd (ground (arith, h, failed))
  ]

  pub xadd_and_publish-err :
      (s : x.Server) (l : List ℕ)
      → (xadd_and_publish x s l).0 ≡ false
      → (x.stream (xadd_and_publish x s l).1 ≡ x.stream s)
        ⊎ (x.stream (xadd_and_publish x s l).1 ≡ x.stream s ++ (l ∷ []))
  unfolding xadd_and_publish
  xadd_and_publish-err s l h = elim (Bool-cases (x.xadd s l).0) [
    | inl added ↦ absurd (ground (arith, h, added))
    | inr failed ↦ rw failed (x.xadd_err s l failed)
  ]

  -- A replay of `ls` out of `s`: the lines sent are the first ones, those left are the others; the
  -- stream has grown by the lines sent, in order, and perhaps by the one whose command failed.
  pub record Replayed (s : x.Server) (ls : List (List ℕ)) (out : List (List ℕ) × x.Server)
      : Type 0 where
    pub sent : List (List ℕ)
    pub split : ls ≡ sent ++ out.0
    pub reached :
        (x.stream out.1 ≡ x.stream s ++ sent)
        ⊎ ((l : List ℕ) × (rest : List (List ℕ)) × (out.0 ≡ l ∷ rest)
            × (x.stream out.1 ≡ x.stream s ++ (sent ++ (l ∷ []))))

  longer :
      (s s1 : x.Server) (line : List ℕ) (rest : List (List ℕ)) (out : List (List ℕ) × x.Server)
      → x.stream s1 ≡ x.stream s ++ (line ∷ [])
      → Replayed s1 rest out
      → Replayed s (line ∷ rest) out
  longer s s1 line rest out e r = record {
    sent = line ∷ r.sent;
    split = ap (λ t. line ∷ t) r.split;
    reached = elim r.reached [
      | inl h ↦ inl (h ∙ ap (λ t. t ++ r.sent) e ∙ append_assoc (x.stream s) (line ∷ []) r.sent)
      | inr (l, more, q, h) ↦ inr (
        l,
        more,
        q,
        h
            ∙ ap (λ t. t ++ (r.sent ++ (l ∷ []))) e
            ∙ append_assoc (x.stream s) (line ∷ []) (r.sent ++ (l ∷ [])),
      )
    ];
  }

  pub replay_lines-Replayed :
      (ls : List (List ℕ)) (s : x.Server) → Replayed s ls (replay_lines x s ls)
  unfolding replay_lines
  replay_lines-Replayed [] s = record {
    sent = [];
    split = refl;
    reached = inl (sym (append-nil (x.stream s)));
  }
  replay_lines-Replayed (line ∷ rest) s = elim (Bool-cases (xadd_and_publish x s line).0) [
    | inl sent ↦
        rw (sent, replay_lines)
          (longer s _ line rest _ (xadd_and_publish-ok s line sent) (replay_lines-Replayed rest _))
    | inr failed ↦
        rw (failed, replay_lines)
          (record {
            sent = [];
            split = refl;
            reached = elim (xadd_and_publish-err s line failed) [
              | inl same ↦ inl (same ∙ sym (append-nil (x.stream s)))
              | inr added ↦ inr (line, rest, refl, added)
            ];
          })
  ]

module _ (k : Disk) where
  remove-cases :
      (d : k.State)
      → (k.content (k.remove_file d).1 ≡ none) ⊎ (k.content (k.remove_file d).1 ≡ k.content d)
  remove-cases d = elim (Bool-cases (k.remove_file d).0) [
    | inl done ↦ inl (k.remove_ok d done)
    | inr failed ↦ inr (k.remove_err d failed)
  ]

  write-cases :
      (d : k.State) (bs bs' : List ℕ)
      → bs ≡ bs'
      → (bytes_of (k.content (k.write d bs).1) ≡ bs')
        ⊎ ((k.write d bs').0 ≡ false) × ((k.write d bs).1 ≡ (k.write d bs').1)
  write-cases d bs bs' e = elim (Bool-cases (k.write d bs).0) [
    | inl done ↦ inl (k.write_ok d bs done ∙ e)
    | inr failed ↦ inr (rw (← e) failed, ap (λ t. (k.write d t).1) e)
  ]

module _ {x : Redis} {k : Disk} where
  -- What became of the lines `ls` of the file in a replay from `t` that ends as `out`.
  pub record Replay (ls : List (List ℕ)) (t : Dispatcher x k) (out : Bool × Dispatcher x k)
      : Type 0 where
    pub sent : List (List ℕ)
    pub left : List (List ℕ)
    pub split : ls ≡ sent ++ left
    -- true is returned when nothing is left, and only then
    pub drained : (left ≡ []) → out.0 ≡ true
    pub interrupted : (left ≢ []) → out.0 ≡ false
    pub replayed : out.1.metrics.hot_replayed_total ≡ t.metrics.hot_replayed_total + length sent
    pub lost_same : out.1.metrics.hot_lost_total ≡ t.metrics.hot_lost_total
    pub reached :
        (x.stream out.1.server ≡ x.stream t.server ++ sent)
        ⊎ ((l : List ℕ) × (rest : List (List ℕ)) × (left ≡ l ∷ rest)
            × (x.stream out.1.server ≡ x.stream t.server ++ (sent ++ (l ∷ []))))
    -- a drained file is removed, or stays whole if that fails; otherwise exactly the lines left are
    -- written back, unless that fails
    pub removed :
        (left ≡ []) → (k.content out.1.disk ≡ none) ⊎ (k.content out.1.disk ≡ k.content t.disk)
    pub rewritten :
        (left ≢ [])
        → (bytes_of (k.content out.1.disk) ≡ text_of left)
          ⊎ ((k.write t.disk (text_of left)).0 ≡ false)
            × (out.1.disk ≡ (k.write t.disk (text_of left)).1)

  end_replay-Replay :
      (t : Dispatcher x k) (ls left : List (List ℕ)) (s : x.Server)
      → Replayed x t.server ls (left, s)
      → Replay ls t (end_replay t (length ls) (left, s))
  unfolding end_replay
  end_replay-Replay t ls [] s r = record {
    sent = r.sent;
    left = [];
    split = r.split;
    drained = λ _. refl;
    interrupted = λ h. absurd (h refl);
    replayed = omega (arith, ap length r.split, length-append r.sent []);
    lost_same = refl;
    reached = r.reached;
    removed = λ _. remove-cases k t.disk;
    rewritten = λ h. absurd (h refl);
  }
  end_replay-Replay t ls (l ∷ rest) s r = record {
    sent = r.sent;
    left = l ∷ rest;
    split = r.split;
    drained = λ h. cc;
    interrupted = λ _. refl;
    replayed = omega (arith, ap length r.split, length-append r.sent (l ∷ rest));
    lost_same = refl;
    reached = r.reached;
    removed = λ h. cc;
    rewritten = λ _. write-cases k t.disk _ _ (join-text_of l rest);
  }

  replay_file-Replay : (t : Dispatcher x k) (ls : List (List ℕ)) → Replay ls t (replay_file t ls)
  replay_file-Replay t [] = record {
    sent = [];
    left = [];
    split = refl;
    drained = λ _. refl;
    interrupted = λ h. absurd (h refl);
    replayed = omega arith;
    lost_same = refl;
    reached = inl (sym (append-nil (x.stream t.server)));
    removed = λ _. remove-cases k t.disk;
    rewritten = λ h. absurd (h refl);
  }
  replay_file-Replay t (line ∷ rest) =
      end_replay-Replay t (line ∷ rest) _ _ (replay_lines-Replayed x (line ∷ rest) t.server)

  -- A replay of a file that can be read and holds the payload lines `ls` sends them in order, oldest first, as far
  -- as it gets. It returns true exactly when none is left, and counts those sent. The stream has
  -- grown by those sent, and perhaps by the one whose command failed. A drained file is removed, or
  -- stays whole; otherwise the file is exactly the lines left, unless writing it failed.
  pub replay_spill-Replay :
      (t : Dispatcher x k) (ls : List (List ℕ))
      → AllLines ls
      → k.read_to_string t.disk ≡ some (text_of ls)
      → Replay ls t (replay_spill t)
  unfolding replay_spill
  replay_spill-Replay t ls ok e =
      rw (e, replay_spill, lines-text_of ls ok) (replay_file-Replay t ls)
