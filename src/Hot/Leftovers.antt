-- ===== src/Hot/Leftovers.antt =====
-- What a replay by src/hot.rs leaves: every line of the file is in the stream or in the file.
use hazshield_ingest.Prelude.{
  ℕ, ◌≡◌, ◌≢◌, refl, ◌∙◌, sym, subst, ap, ◌⊎◌, inl, inr, Bool, some, List, [], ◌∷◌, ◌++◌,
  append_assoc, arith, Option-cases,
}
use hazshield_ingest.Hot.Spool.{text_of, AllLines}
use hazshield_ingest.Hot.External.{Redis, Disk, bytes_of, WritesWhole}
use hazshield_ingest.Hot.Replay.{Replay, replay_spill-Replay}
use hazshield_ingest.Hot.Kept.{
  Has, Has-append, Has-append_left, Has-append_right, AllLines-right, Holds, Kept, Kept-still,
}
use hazshield_ingest.Hot.{Dispatcher, replay_spill}

empty-cases : (ls : List (List ℕ)) → (ls ≡ []) ⊎ (ls ≢ [])
empty-cases [] = inl refl
empty-cases (l ∷ ls) = inr (λ h. cc)

module _ {x : Redis} {k : Disk} (whole : WritesWhole k) where
  -- The stream after a replay has what it had, and the lines that were sent.
  stream-Replay :
      (ls : List (List ℕ)) (t : Dispatcher x k) (out : Bool × Dispatcher x k) (r : Replay ls t out)
      (q : List ℕ)
      → Has q (x.stream t.server ++ r.sent)
      → Has q (x.stream out.1.server)
  stream-Replay ls t out r q h = elim r.reached [
    | inl e ↦ subst (Has q) (sym e) h
    | inr (l, rest, same, e) ↦ subst (Has q) (sym e ∙ ap x.stream refl) (
        subst (Has q) (append_assoc (x.stream t.server) r.sent (l ∷ []))
          (Has-append_left q (x.stream t.server ++ r.sent) (l ∷ []) h))
  ]

  -- A replay after which the file has the lines `file`, among them all that are left.
  Replay-Kept_as :
      (ls file : List (List ℕ)) (t : Dispatcher x k) (out : Bool × Dispatcher x k)
      (r : Replay ls t out)
      → Holds file out.1
      → ((q : List ℕ) → Has q r.left → Has q file)
      → Kept ls [] t out.1
  Replay-Kept_as ls file t out r v more = record {
    file = file;
    holds = v;
    grows = omega (arith, r.lost_same);
    kept = λ e q w. go q w;
  }
    where
      go :
          (q : List ℕ)
          → Has q (x.stream t.server) ⊎ (Has q ls ⊎ ⊥)
          → Has q (x.stream out.1.server) ⊎ Has q file
      go q (inl h) =
          inl (stream-Replay ls t out r q (Has-append_left q (x.stream t.server) r.sent h))
      go q (inr (inr h)) = absurd h
      go q (inr (inl h)) = elim (Has-append q r.sent r.left (subst (Has q) r.split h)) [
        | inl sent ↦
            inl (stream-Replay ls t out r q (Has-append_right q (x.stream t.server) r.sent sent))
        | inr left ↦ inr (more q left)
      ]

  -- The file stayed as it was.
  Replay-Kept_whole :
      (ls : List (List ℕ)) (t : Dispatcher x k) (out : Bool × Dispatcher x k) (r : Replay ls t out)
      → Holds ls t
      → bytes_of (k.content out.1.disk) ≡ bytes_of (k.content t.disk)
      → Kept ls [] t out.1
  Replay-Kept_whole ls t out r v e =
      Replay-Kept_as ls ls t out r (record { payloads = v.payloads; text = e ∙ v.text })
        (λ q h. subst (Has q) (sym r.split) (Has-append_right q r.sent r.left h))

  -- The file became the text of what is left.
  Replay-Kept_left :
      (ls : List (List ℕ)) (t : Dispatcher x k) (out : Bool × Dispatcher x k) (r : Replay ls t out)
      → Holds ls t
      → bytes_of (k.content out.1.disk) ≡ text_of r.left
      → Kept ls [] t out.1
  Replay-Kept_left ls t out r v e =
      Replay-Kept_as ls r.left t out r
        (record {
          payloads = AllLines-right r.sent r.left (subst AllLines r.split v.payloads);
          text = e;
        })
        (λ q h. h)

  -- What a replay leaves holds what the stream and the file had.
  Replay-Kept :
      (ls : List (List ℕ)) (t : Dispatcher x k) (out : Bool × Dispatcher x k)
      → Holds ls t
      → Replay ls t out
      → Kept ls [] t out.1
  Replay-Kept ls t out v r = elim (empty-cases r.left) [
    | inl none_left ↦ elim (r.removed none_left) [
      | inl gone ↦ Replay-Kept_left ls t out r v (ap bytes_of gone ∙ sym (ap text_of none_left))
      | inr same ↦ Replay-Kept_whole ls t out r v (ap bytes_of same)
    ]
    | inr some_left ↦ elim (r.rewritten some_left) [
      | inl done ↦ Replay-Kept_left ls t out r v done
      | inr (failed, e) ↦
          Replay-Kept_whole ls t out r v
            (ap (λ d. bytes_of (k.content d)) e ∙ whole.write_err t.disk (text_of r.left) failed)
    ]
  ]

  pub replay_spill-Kept :
      (ls : List (List ℕ)) (t : Dispatcher x k) → Holds ls t → Kept ls [] t (replay_spill t).1
  unfolding replay_spill
  replay_spill-Kept ls t v = elim (Option-cases (k.read_to_string t.disk)) [
    | inl unread ↦ rw (unread, replay_spill) (Kept-still ls t t v refl refl (λ q h. h))
    | inr (c, readable) ↦ Replay-Kept ls t (replay_spill t) v (
        replay_spill-Replay t ls v.payloads
          (readable ∙ ap some (sym (ap bytes_of (k.read_some t.disk c readable)) ∙ v.text)))
  ]
