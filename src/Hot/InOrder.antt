-- ===== src/Hot/InOrder.antt =====
-- The steps of src/hot.rs keep the order in which violations were received.
use hazshield_ingest.Prelude.{
  ℕ, ◌+◌, ◌≡◌, refl, ◌∙◌, sym, subst, ap, inl, inr, Bool, true, false, some, List, [], ◌∷◌, ◌++◌,
  append_assoc, append-nil, arith, Bool-cases, Option-cases,
}
use hazshield_ingest.Hot.Spool.{
  newline, text_of, IsLine, AllLines, lines-text_of, join-text_of, text_of-append,
}
use hazshield_ingest.Hot.External.{Redis, Disk, bytes_of, WritesWhole}
use hazshield_ingest.Hot.Replay.{xadd_and_publish-ok, replay_lines-Replayed}
use hazshield_ingest.Hot.Kept.{AllLines-append, AllLines-right, Holds}
use hazshield_ingest.Hot.Order.{
  Exact, Reliable, text_of-nil, xadd_and_publish-same, replay_lines-order, Live, Ordered,
  Ordered-trans, Ordered-same, Ordered-if,
}
use hazshield_ingest.Hot.{
  Dispatcher, xadd_and_publish, replay_lines, spill, dispatch, disconnected, end_replay,
  replay_file, replay_spill,
}

module _ {x : Redis} {k : Disk} (exact : Exact x) (whole : WritesWhole k) (sound : Reliable k) where
  Ordered-lost :
      (ls : List (List ℕ)) (p : List ℕ) (t t' : Dispatcher x k)
      → Holds ls t
      → Live ls t'
      → bytes_of (k.content t'.disk) ≡ bytes_of (k.content t.disk)
      → t'.metrics.hot_lost_total ≡ t.metrics.hot_lost_total + 1
      → Ordered ls (p ∷ []) t t'
  Ordered-lost ls p t t' v live d m = record {
    file = ls;
    holds = record { payloads = v.payloads; text = d ∙ v.text };
    live = live;
    grows = omega arith;
    order = λ e. absurd (omega arith);
  }

  Ordered-spilled :
      (ls : List (List ℕ)) (p : List ℕ) (t t' : Dispatcher x k)
      → Holds ls t
      → t'.conn ≡ false
      → IsLine p
      → bytes_of (k.content t'.disk) ≡ bytes_of (k.content t.disk) ++ (p ++ (newline ∷ []))
      → t'.metrics.hot_lost_total ≡ t.metrics.hot_lost_total
      → x.stream t'.server ≡ x.stream t.server
      → Ordered ls (p ∷ []) t t'
  Ordered-spilled ls p t t' v free line d m s = record {
    file = ls ++ (p ∷ []);
    holds = record {
      payloads = AllLines-append ls (p ∷ []) v.payloads (line, tt);
      text = d ∙ ap (λ bs. bs ++ (p ++ (newline ∷ []))) v.text ∙ text_of-append ls p;
    };
    live = λ h. cc;
    grows = omega arith;
    order =
        λ _. ap (λ e. e ++ (ls ++ (p ∷ []))) s ∙ sym (append_assoc (x.stream t.server) ls (p ∷ []));
  }

  Ordered-spill :
      (ls : List (List ℕ)) (t : Dispatcher x k) (l : List ℕ)
      → t.conn ≡ false
      → Holds ls t
      → IsLine l
      → Ordered ls (l ∷ []) t (spill t l)
  unfolding spill
  Ordered-spill ls t l free v line =
      let d1 = (k.open_append t.disk).1 in
      elim (Bool-cases (k.open_append t.disk).0) [
        | inr closed ↦ rw closed (Ordered-lost ls l t _ v (λ h. cc) (k.open_bytes t.disk) refl)
        | inl opened ↦ elim (Bool-cases (k.write_line d1 l).0) [
          | inl written ↦
              rw (opened, written)
                (Ordered-spilled ls l t _ v free line
                  (k.write_line_ok d1 l written
                    ∙ ap (λ bs. bs ++ (l ++ (newline ∷ []))) (k.open_bytes t.disk))
                  refl refl)
          | inr failed ↦
              rw (opened, failed)
                (Ordered-lost ls l t _ v (λ h. cc)
                  (whole.write_line_err d1 l failed ∙ k.open_bytes t.disk) refl)
        ]
      ]

  Ordered-sent :
      (ls : List (List ℕ)) (l : List ℕ) (t t' : Dispatcher x k)
      → Holds ls t
      → ls ≡ []
      → t'.disk ≡ t.disk
      → t'.metrics.hot_lost_total ≡ t.metrics.hot_lost_total
      → x.stream t'.server ≡ x.stream t.server ++ (l ∷ [])
      → Ordered ls (l ∷ []) t t'
  Ordered-sent ls l t t' v empty d m s = record {
    file = ls;
    holds = record { payloads = v.payloads; text = ap (λ e. bytes_of (k.content e)) d ∙ v.text };
    live = λ _. empty;
    grows = omega arith;
    order = λ _. rw (empty, s, append-nil, append-nil) refl;
  }

  -- The state after a send that failed.
  abbrev mid : Dispatcher x k → List ℕ → Dispatcher x k
  mid t l = disconnected t (xadd_and_publish x t.server l).1

  pub Ordered-dispatch :
      (ls : List (List ℕ)) (t : Dispatcher x k) (l : List ℕ)
      → Holds ls t
      → Live ls t
      → IsLine l
      → Ordered ls (l ∷ []) t (dispatch t l)
  unfolding dispatch
  Ordered-dispatch ls t l v live line =
      Ordered-if ls (l ∷ []) t _ _ t.conn
        (λ held.
          Ordered-if ls (l ∷ []) t _ _ (xadd_and_publish x t.server l).0
            (λ sent.
              Ordered-sent ls l t _ v (live held) refl refl (xadd_and_publish-ok x t.server l sent))
            (λ failed.
              Ordered-trans t (mid t l) _ ls [] (l ∷ [])
                (Ordered-same ls t (mid t l) v (λ h. cc) refl refl
                  (xadd_and_publish-same exact t.server l failed))
                (λ file held_lines still_live.
                  Ordered-spill file (mid t l) l refl held_lines line)))
        (λ free. Ordered-spill ls t l free v line)

  -- What a replay of the lines `ls` from `t` comes to.
  pub record After (ls : List (List ℕ)) (t : Dispatcher x k) (out : Bool × Dispatcher x k)
      : Type 0 where
    pub file : List (List ℕ)
    pub holds : Holds file out.1
    pub drained : out.0 ≡ true → file ≡ []
    pub same_conn : out.1.conn ≡ t.conn
    pub same_lost : out.1.metrics.hot_lost_total ≡ t.metrics.hot_lost_total
    pub order : x.stream out.1.server ++ file ≡ x.stream t.server ++ ls

  After-end_replay :
      (ls : List (List ℕ)) (t : Dispatcher x k) (n : ℕ) (out : List (List ℕ) × x.Server)
      → AllLines out.0
      → x.stream out.1 ++ out.0 ≡ x.stream t.server ++ ls
      → After ls t (end_replay t n out)
  unfolding end_replay
  After-end_replay ls t n ([], s) ok e = record {
    file = [];
    holds = record {
      payloads = tt;
      text = ap bytes_of (k.remove_ok t.disk (sound.remove_done t.disk));
    };
    drained = λ _. refl;
    same_conn = refl;
    same_lost = refl;
    order = e;
  }
  After-end_replay ls t n (l ∷ rest, s) ok e = record {
    file = l ∷ rest;
    holds = record {
      payloads = ok;
      text = k.write_ok t.disk _ (sound.write_done t.disk _) ∙ join-text_of l rest;
    };
    drained = λ h. cc;
    same_conn = refl;
    same_lost = refl;
    order = e;
  }

  After-replay_file :
      (ls : List (List ℕ)) (t : Dispatcher x k) → AllLines ls → After ls t (replay_file t ls)
  After-replay_file [] t ok = record {
    file = [];
    holds = record {
      payloads = tt;
      text = ap bytes_of (k.remove_ok t.disk (sound.remove_done t.disk));
    };
    drained = λ _. refl;
    same_conn = refl;
    same_lost = refl;
    order = refl;
  }
  After-replay_file (l ∷ rest) t ok =
      let r = replay_lines-Replayed x (l ∷ rest) t.server in
      After-end_replay (l ∷ rest) t _ (replay_lines x t.server (l ∷ rest))
        (AllLines-right r.sent _ (subst AllLines r.split ok))
        (replay_lines-order exact (l ∷ rest) t.server)

  pub After-replay_spill :
      (ls : List (List ℕ)) (t : Dispatcher x k) → Holds ls t → After ls t (replay_spill t)
  unfolding replay_spill
  After-replay_spill ls t v = elim (Option-cases (k.read_to_string t.disk)) [
    | inl unread ↦
        let empty : ls ≡ [] =
          text_of-nil ls (sym v.text ∙ ap bytes_of (sound.read_none t.disk unread)) in
        rw (unread, replay_spill)
          (record {
            file = ls;
            holds = v;
            drained = λ _. empty;
            same_conn = refl;
            same_lost = refl;
            order = refl;
          })
    | inr (c, readable) ↦
        let known : k.read_to_string t.disk ≡ some (text_of ls) =
          readable ∙ ap some (sym (ap bytes_of (k.read_some t.disk c readable)) ∙ v.text) in
        rw (known, replay_spill, lines-text_of ls v.payloads) (After-replay_file ls t v.payloads)
  ]
