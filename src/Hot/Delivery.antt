-- ===== src/Hot/Delivery.antt =====
-- At-least-once delivery by src/hot.rs: a violation that the dispatcher took is in the stream or in
-- the spill file, or it was counted as lost.
use hazshield_ingest.Prelude.{
  ℕ, ◌≡◌, refl, ◌∙◌, sym, subst, ap, ◌⊎◌, inl, inr, Bool, true, false, List, [], ◌∷◌, ◌++◌, arith,
  Bool-cases, if◌then◌else◌,
}
use hazshield_ingest.Platform.{Platform}
use hazshield_ingest.Types.{Violation}
use hazshield_ingest.Hot.Spool.{newline, IsLine}
use hazshield_ingest.Hot.External.{Redis, Disk, bytes_of, WritesWhole}
use hazshield_ingest.Hot.Replay.{xadd_and_publish-ok, xadd_and_publish-err}
use hazshield_ingest.Hot.Leftovers.{replay_spill-Kept}
use hazshield_ingest.Hot.Kept.{
  Has, Has-append_left, Has-append_right, Holds, Kept, Kept-trans, Kept-still, Kept-lost,
  Kept-spilled,
}
use hazshield_ingest.Hot.{
  Dispatcher, Event, received, probed, xadd_and_publish, spill, dispatch, disconnected,
  replay_spill, probe, step, run,
}

module _ {p : Platform} where
  -- The payloads that a history takes from the channel.
  abbrev pub payloads_in : (Violation p → List ℕ) → List (Event p) → List (List ℕ)
  payloads_in to_json [] = []
  payloads_in to_json (received v ∷ evs) = to_json v ∷ payloads_in to_json evs
  payloads_in to_json (probed ∷ evs) = payloads_in to_json evs

  pub payloads_in-cons :
      (to_json : Violation p → List ℕ) (ev : Event p) (evs : List (Event p))
      → payloads_in to_json (ev ∷ []) ++ payloads_in to_json evs ≡ payloads_in to_json (ev ∷ evs)
  payloads_in-cons to_json (received v) evs = refl
  payloads_in-cons to_json probed evs = refl

module _ (x : Redis) where
  -- A command that fails keeps what the stream has.
  still_there :
      (s : x.Server) (l q : List ℕ)
      → (xadd_and_publish x s l).0 ≡ false
      → Has q (x.stream s)
      → Has q (x.stream (xadd_and_publish x s l).1)
  still_there s l q h w = elim (xadd_and_publish-err x s l h) [
    | inl same ↦ subst (Has q) (sym same) w
    | inr added ↦ subst (Has q) (sym added) (Has-append_left q (x.stream s) (l ∷ []) w)
  ]

module _ {x : Redis} {k : Disk} (whole : WritesWhole k) where
  pub spill-Kept :
      (ls : List (List ℕ)) (t : Dispatcher x k) (l : List ℕ)
      → Holds ls t
      → IsLine l
      → Kept ls (l ∷ []) t (spill t l)
  unfolding spill
  spill-Kept ls t l v line =
      let d1 = (k.open_append t.disk).1 in
      elim (Bool-cases (k.open_append t.disk).0) [
        | inr closed ↦ rw closed (Kept-lost ls l t _ v (k.open_bytes t.disk) refl)
        | inl opened ↦ elim (Bool-cases (k.write_line d1 l).0) [
          | inl written ↦
              rw (opened, written)
                (Kept-spilled ls l t _ v line
                  (k.write_line_ok d1 l written
                    ∙ ap (λ bs. bs ++ (l ++ (newline ∷ []))) (k.open_bytes t.disk))
                  refl refl)
          | inr failed ↦
              rw (opened, failed)
                (Kept-lost ls l t _ v (whole.write_line_err d1 l failed ∙ k.open_bytes t.disk) refl)
        ]
      ]

  Kept-sent :
      (ls : List (List ℕ)) (l : List ℕ) (t t' : Dispatcher x k)
      → Holds ls t
      → t'.disk ≡ t.disk
      → t'.metrics.hot_lost_total ≡ t.metrics.hot_lost_total
      → x.stream t'.server ≡ x.stream t.server ++ (l ∷ [])
      → Kept ls (l ∷ []) t t'
  Kept-sent ls l t t' v d m s = record {
    file = ls;
    holds = record { payloads = v.payloads; text = ap (λ e. bytes_of (k.content e)) d ∙ v.text };
    grows = omega arith;
    kept = λ e q w. go q w;
  }
    where
      go :
          (q : List ℕ)
          → Has q (x.stream t.server) ⊎ (Has q ls ⊎ ((q ≡ l) ⊎ ⊥))
          → Has q (x.stream t'.server) ⊎ Has q ls
      go q (inl h) = inl (subst (Has q) (sym s) (Has-append_left q (x.stream t.server) (l ∷ []) h))
      go q (inr (inl h)) = inr h
      go q (inr (inr h)) =
          inl (subst (Has q) (sym s) (Has-append_right q (x.stream t.server) (l ∷ []) h))

  -- The state after a send that failed.
  abbrev mid : Dispatcher x k → List ℕ → Dispatcher x k
  mid t l = disconnected t (xadd_and_publish x t.server l).1

  dispatch-Kept :
      (ls : List (List ℕ)) (t : Dispatcher x k) (l : List ℕ)
      → Holds ls t
      → IsLine l
      → Kept ls (l ∷ []) t (dispatch t l)
  unfolding dispatch
  dispatch-Kept ls t l v line = elim (Bool-cases t.conn) [
    | inr none_held ↦ simp none_held (spill-Kept ls t l v line)
    | inl held ↦ elim (Bool-cases (xadd_and_publish x t.server l).0) [
      | inl sent ↦
          simp (held, sent) (Kept-sent ls l t _ v refl refl (xadd_and_publish-ok x t.server l sent))
      | inr failed ↦
          simp (held, failed)
            (Kept-trans t (mid t l) _ ls [] (l ∷ [])
              (Kept-still ls t (mid t l) v refl refl (λ q w. still_there x t.server l q failed w))
              (λ file held_lines. spill-Kept file (mid t l) l held_lines line))
    ]
  ]

  -- The state with which a probe goes on to the replay.
  abbrev asked : Dispatcher x k → Dispatcher x k
  asked t = record t { server = (x.connect t.server).1 }

  asked-Kept : (ls : List (List ℕ)) (t : Dispatcher x k) → Holds ls t → Kept ls [] t (asked t)
  asked-Kept ls t v =
      Kept-still ls t (asked t) v refl refl
        (λ q h. subst (Has q) (sym (x.stream-connect t.server)) h)

  -- The state of the connection and its gauge do not matter.
  abbrev with_conn : Dispatcher x k → Bool → ℕ → Dispatcher x k
  with_conn t c n = record t { conn = c; metrics = record (t.metrics) { hot_redis_up = n } }

  with_conn-Kept :
      (ls ps : List (List ℕ)) (t t' : Dispatcher x k) (c : Bool) (n : ℕ)
      → Kept ls ps t t'
      → Kept ls ps t (with_conn t' c n)
  with_conn-Kept ls ps t t' c n h = record {
    file = h.file;
    holds = record { payloads = h.holds.payloads; text = h.holds.text };
    grows = h.grows;
    kept = h.kept;
  }

  replayed-Kept :
      (ls : List (List ℕ)) (t : Dispatcher x k)
      → Holds ls t
      → Kept ls [] t (replay_spill (asked t)).1
  replayed-Kept ls t v =
      Kept-trans t (asked t) (replay_spill (asked t)).1 ls [] [] (asked-Kept ls t v)
        (λ file held. replay_spill-Kept whole file (asked t) held)

  if-Kept :
      (ls ps : List (List ℕ)) (t u w : Dispatcher x k) (b : Bool)
      → Kept ls ps t u
      → Kept ls ps t w
      → Kept ls ps t (if b then u else w)
  if-Kept ls ps t u w true h g = h
  if-Kept ls ps t u w false h g = g

  probe-Kept : (ls : List (List ℕ)) (t : Dispatcher x k) → Holds ls t → Kept ls [] t (probe t)
  unfolding probe
  probe-Kept ls t v =
      let replayed = replayed-Kept ls t v in
      if-Kept ls [] t _ _ t.conn (Kept-still ls t t v refl refl (λ q h. h)) (
        if-Kept ls [] t _ _ (x.connect t.server).0
          (if-Kept ls [] t _ _ (replay_spill (asked t)).0
            (with_conn-Kept ls [] t (replay_spill (asked t)).1 true 1 replayed) replayed)
          (asked-Kept ls t v))

  module _ {p : Platform} (to_json : Violation p → List ℕ)
      (printed : (v : Violation p) → IsLine (to_json v)) where
    pub step-Kept :
        (ls : List (List ℕ)) (t : Dispatcher x k) (ev : Event p)
        → Holds ls t
        → Kept ls (payloads_in to_json (ev ∷ [])) t (step to_json t ev)
    unfolding step
    step-Kept ls t (received v) h =
        with_conn-Kept ls (to_json v ∷ []) t (dispatch t (to_json v)) _ _
          (dispatch-Kept ls t (to_json v) h (printed v))
    step-Kept ls t probed h = probe-Kept ls t h

    -- From any state in which the spill file is the text of payload lines, on a disk whose failed
    -- writes leave the file as it was, and whatever Redis and the disk answer: after a run over a
    -- history of received violations and probes the file is again the text of payload lines, the
    -- count of lost violations has not fallen, and if it has not risen then every entry of the
    -- stream, every line of the old file and every violation received is in the stream or in the file.
    pub run-Kept :
        (evs : List (Event p)) (ls : List (List ℕ)) (t : Dispatcher x k)
        → Holds ls t
        → Kept ls (payloads_in to_json evs) t (run to_json t evs)
    unfolding run
    run-Kept [] ls t h = Kept-still ls t t h refl refl (λ q w. w)
    run-Kept (ev ∷ evs) ls t h =
        subst (λ ps. Kept ls ps t (run to_json t (ev ∷ evs))) (payloads_in-cons to_json ev evs)
          (Kept-trans t (step to_json t ev) (run to_json t (ev ∷ evs)) ls
            (payloads_in to_json (ev ∷ [])) (payloads_in to_json evs) (step-Kept ls t ev h)
            (λ file held. run-Kept evs file (step to_json t ev) held))
