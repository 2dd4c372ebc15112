-- ===== src/System/Alarms.antt =====
-- Violations from the handlers of src/ingest.rs to the stream and the spill file of src/hot.rs, with
-- all tasks of src/main.rs interleaved.
use hazshield_ingest.Prelude.{
  ℕ, ◌+◌, ◌≡◌, refl, ◌∙◌, sym, subst, ap, ◌⊎◌, inl, inr, Option, none, some, List, [], ◌∷◌, ◌++◌,
  map, map-append, append-nil, arith, Bool-cases, Option-cases, lookup, to_list,
}
use hazshield_ingest.Platform.{Platform}
use hazshield_ingest.Types.{Violation}
use hazshield_ingest.Lane.Receiver.{Receiver, pending-send}
use hazshield_ingest.Ingest.Gateway.{Services, IngestSummary, Work}
use hazshield_ingest.Ingest.Delivery.{violation_in, notify, hot_part-judge}
use hazshield_ingest.Warm
use hazshield_ingest.Warm.{Writer}
use hazshield_ingest.Warm.Untouched.{others-flush, others-step}
use hazshield_ingest.Warm.Database.{Postgres}
use hazshield_ingest.Hot
use hazshield_ingest.Hot.{Dispatcher}
use hazshield_ingest.Hot.External.{Redis, Disk, WritesWhole}
use hazshield_ingest.Hot.Spool.{IsLine}
use hazshield_ingest.Hot.Kept.{Has, Has-append, Has-append_left, Has-append_right, Holds, Kept}
use hazshield_ingest.Hot.Delivery.{step-Kept}
use hazshield_ingest.System.Safe.{IsSomewhere, Safe, Safe-trans, Safe-same}
use hazshield_ingest.System.{
  System, Action, started, judged, published, refused, dispatched, probed, written, ticked, drained,
  dispatcher_of, writer_of, with_dispatcher, judging, step, run,
}

module _ {p : Platform} where
  -- The violations among the readings that the handlers judge, by their registry snapshots alone.
  abbrev pub alarms : Action p → List (Violation p)
  alarms (judged i a now r) = to_list (violation_in a.registry r)
  alarms _ = []

  abbrev pub alarms_in : List (Action p) → List (Violation p)
  alarms_in [] = []
  alarms_in (a ∷ acts) = alarms a ++ alarms_in acts

module _ {p : Platform} (e : Services p) (hot_rx : Receiver e.hot) where
  -- A handler judges a reading: a violation is in the channel, or its loss is counted.
  pub notify-pending :
      (c : e.hot.Chan) (lost : ℕ) (o : Option (Violation p))
      → ((notify e (c, lost) o).1 ≡ lost + 1)
        ⊎ ((notify e (c, lost) o).1 ≡ lost)
          × (hot_rx.pending (notify e (c, lost) o).0 ≡ hot_rx.pending c ++ to_list o)
  notify-pending c lost none = inr (refl, sym (append-nil (hot_rx.pending c)))
  notify-pending c lost (some v) = elim (Bool-cases (e.hot.send c v).0) [
    | inl sent ↦ inr (rw sent refl, pending-send hot_rx c v ∙ rw sent refl)
    | inr failed ↦ inl (rw failed refl)
  ]

module _ {p : Platform} {e : Services p} {g : Postgres} {x : Redis} {k : Disk}
    (hot_rx : Receiver e.hot) (warm_rx : Receiver e.warm) (to_json : Violation p → List ℕ) where
  Safe-judged :
      (ls : List (List ℕ)) (vs : List (Violation p)) (s : System e g x k) (w : Work e)
      (sums : ℕ → IngestSummary)
      → Holds ls (dispatcher_of s)
      → (w.metrics.hot_lost_total ≡ s.work.metrics.hot_lost_total + 1)
        ⊎ (w.metrics.hot_lost_total ≡ s.work.metrics.hot_lost_total)
          × (hot_rx.pending w.hot_tx ≡ hot_rx.pending s.work.hot_tx ++ vs)
      → Safe hot_rx to_json ls vs s (record s { work = w; sums = sums })
  Safe-judged ls vs s w sums v (inl lost) = record {
    file = ls;
    holds = record { payloads = v.payloads; text = v.text };
    grows = omega arith;
    kept = λ same q h. absurd (omega arith);
  }
  Safe-judged ls vs s w sums v (inr (same_lost, sent)) = record {
    file = ls;
    holds = record { payloads = v.payloads; text = v.text };
    grows = omega arith;
    kept = λ same q h. go q h;
  }
    where
      all :
          map to_json (hot_rx.pending w.hot_tx)
          ≡ map to_json (hot_rx.pending s.work.hot_tx) ++ map to_json vs
      all = ap (map to_json) sent ∙ map-append to_json (hot_rx.pending s.work.hot_tx) vs

      go :
          (q : List ℕ)
          → IsSomewhere hot_rx to_json q ls s ⊎ Has q (map to_json vs)
          → IsSomewhere hot_rx to_json q ls (record s { work = w; sums = sums })
      go q (inl (inl h)) = inl h
      go q (inl (inr (inl h))) = inr (inl h)
      go q (inl (inr (inr h))) =
          inr (inr (subst (Has q) (sym all) (Has-append_left q _ (map to_json vs) h)))
      go q (inr h) = inr (
          inr (
            subst (Has q) (sym all)
              (Has-append_right q (map to_json (hot_rx.pending s.work.hot_tx)) _ h)))

  -- The dispatcher's round, which took the payloads `vs` out of the channel.
  Safe-dispatcher :
      (ls : List (List ℕ)) (vs : List (Violation p)) (s : System e g x k) (c : e.hot.Chan)
      (t : Dispatcher x k)
      → Kept ls (map to_json vs) (dispatcher_of s) t
      → hot_rx.pending s.work.hot_tx ≡ vs ++ hot_rx.pending c
      → Safe hot_rx to_json ls [] s (with_dispatcher s c t)
  Safe-dispatcher ls vs s c t h taken = record {
    file = h.file;
    holds = record { payloads = h.holds.payloads; text = h.holds.text };
    grows = h.grows;
    kept = λ same q w. go same q w;
  }
    where
      after : System e g x k
      after = with_dispatcher s c t

      rest :
          (q : List ℕ)
          → Has q (x.stream t.server) ⊎ Has q h.file
          → IsSomewhere hot_rx to_json q h.file (with_dispatcher s c t)
      rest q (inl a) = inl a
      rest q (inr b) = inr (inl b)

      go :
          t.metrics.hot_lost_total ≡ s.work.metrics.hot_lost_total
          → (q : List ℕ) → IsSomewhere hot_rx to_json q ls s ⊎ ⊥
          → IsSomewhere hot_rx to_json q h.file (with_dispatcher s c t)
      go same q (inl (inl a)) = rest q (h.kept same q (inl a))
      go same q (inl (inr (inl a))) = rest q (h.kept same q (inr (inl a)))
      go same q (inr a) = absurd a
      go same q (inl (inr (inr a))) =
          elim (Has-append q (map to_json vs) (map to_json (hot_rx.pending c))
            (subst (Has q) (ap (map to_json) taken ∙ map-append to_json vs (hot_rx.pending c)) a)) [
              | inl out ↦ rest q (h.kept same q (inr (inr out)))
              | inr still ↦ inr (inr still)
            ]

  module _ (whole : WritesWhole k) (printed : (v : Violation p) → IsLine (to_json v)) where
    Safe-dispatched :
        (ls : List (List ℕ)) (s : System e g x k)
        → Holds ls (dispatcher_of s)
        → Safe hot_rx to_json ls [] s (step hot_rx warm_rx to_json s dispatched)
    unfolding step
    Safe-dispatched ls s v = elim (Option-cases (hot_rx.recv s.work.hot_tx)) [
      | inl waits ↦ rw (waits, step) (Safe-same hot_rx to_json ls s s v refl refl refl)
      | inr ((m, c), takes) ↦
          rw (takes, step)
            (Safe-dispatcher ls (m ∷ []) s c _
              (step-Kept whole to_json printed ls (dispatcher_of s) (Hot.received m) v)
              (hot_rx.recv_some s.work.hot_tx m c takes).1)
    ]

    Safe-written :
        (ls : List (List ℕ)) (s : System e g x k)
        → Holds ls (dispatcher_of s)
        → Safe hot_rx to_json ls [] s (step hot_rx warm_rx to_json s written)
    unfolding step
    Safe-written ls s v = elim (Option-cases (warm_rx.recv s.work.warm_tx)) [
      | inl waits ↦ rw (waits, step) (Safe-same hot_rx to_json ls s s v refl refl refl)
      | inr ((r, c), takes) ↦
          rw (takes, step)
            (Safe-same hot_rx to_json ls s _ v refl refl
              (ap (λ t. t.0) (others-step (writer_of s) (Warm.received r))))
    ]

    pub Safe-step :
        (ls : List (List ℕ)) (s : System e g x k) (a : Action p)
        → Holds ls (dispatcher_of s)
        → Safe hot_rx to_json ls (alarms a) s (step hot_rx warm_rx to_json s a)
    unfolding step
    Safe-step ls s (started i a) v = Safe-same hot_rx to_json ls s _ v refl refl refl
    Safe-step ls s (judged i a now r) v =
        Safe-judged ls (to_list (violation_in a.registry r)) s (judging s i a now r) _ v (
          subst
            (λ h.
              (h.1 ≡ s.work.metrics.hot_lost_total + 1)
              ⊎ (h.1 ≡ s.work.metrics.hot_lost_total)
                × (hot_rx.pending h.0
                    ≡ hot_rx.pending s.work.hot_tx ++ to_list (violation_in a.registry r)))
            (sym (
              hot_part-judge e (s.sums i).degraded now r _ (lookup r.sensor_id a.registry.sensors)))
            (notify-pending e hot_rx s.work.hot_tx s.work.metrics.hot_lost_total
              (violation_in a.registry r)))
    Safe-step ls s (published i) v = Safe-same hot_rx to_json ls s _ v refl refl refl
    Safe-step ls s refused v = Safe-same hot_rx to_json ls s _ v refl refl refl
    Safe-step ls s dispatched v = Safe-dispatched ls s v
    Safe-step ls s probed v =
        Safe-dispatcher ls [] s s.work.hot_tx _
          (step-Kept whole to_json printed ls (dispatcher_of s) Hot.probed v) refl
    Safe-step ls s written v = Safe-written ls s v
    Safe-step ls s ticked v =
        Safe-same hot_rx to_json ls s _ v refl refl
          (ap (λ t. t.0) (others-step (writer_of s) Warm.tick))
    Safe-step ls s drained v =
        Safe-same hot_rx to_json ls s _ v refl refl (ap (λ t. t.0) (others-flush (writer_of s)))

    -- In any interleaving of handlers, dispatcher and writer, from a state whose spill file is the text
    -- of payload lines, on a disk whose failed writes leave the file as it was, and whatever Redis,
    -- PostgreSQL, the disk and the channels answer: the file is again the text of payload lines, the
    -- count of lost violations has not fallen, and if it has not risen then every entry of the stream,
    -- every line of the file and every violation in the hot channel from before, and every violation
    -- among the readings judged since, is in the stream, in the file or in the hot channel.
    pub Safe-run :
        (acts : List (Action p)) (ls : List (List ℕ)) (s : System e g x k)
        → Holds ls (dispatcher_of s)
        → Safe hot_rx to_json ls (alarms_in acts) s (run hot_rx warm_rx to_json s acts)
    unfolding run
    Safe-run [] ls s v = Safe-same hot_rx to_json ls s s v refl refl refl
    Safe-run (a ∷ acts) ls s v =
        Safe-trans hot_rx to_json s (step hot_rx warm_rx to_json s a) _ ls (alarms a)
          (alarms_in acts) (Safe-step ls s a v)
          (λ file held. Safe-run acts file (step hot_rx warm_rx to_json s a) held)
