-- ===== src/System/Rows.antt =====
-- Accepted readings from the handlers of src/ingest.rs to PostgreSQL, with all tasks of src/main.rs
-- interleaved.
use hazshield_ingest.Prelude.{
  ℕ, ◌+◌, ◌-◌, ◌≡◌, refl, ◌∙◌, sym, ap, inl, inr, List, [], ◌∷◌, ◌++◌, append_assoc, append-nil,
  append_cancel_left, length, length-append, arith, lookup, to_list, Option-cases,
}
use hazshield_ingest.Prelude.Sublists.{flat, Sub-refl, Sub-length}
use hazshield_ingest.Platform.{Platform}
use hazshield_ingest.Types.{Violation, StoredReading}
use hazshield_ingest.Metrics.{Metrics}
use hazshield_ingest.Lane.Receiver.{Receiver}
use hazshield_ingest.Ingest.Gateway.{Services, IngestSummary, Work}
use hazshield_ingest.Ingest.Storage.{row_in, Stored, Stored-judge}
use hazshield_ingest.Ingest.Untouched.{view-judge, metrics-judge}
use hazshield_ingest.Warm
use hazshield_ingest.Warm.{Writer}
use hazshield_ingest.Warm.Flow.{Flow, Flow-flush, Flow-step, Flow-complete}
use hazshield_ingest.Warm.Untouched.{others, others-flush, others-step}
use hazshield_ingest.Warm.Database.{Postgres}
use hazshield_ingest.Hot
use hazshield_ingest.Hot.{Dispatcher}
use hazshield_ingest.Hot.Untouched.{warm_part, warm_part-step}
use hazshield_ingest.Hot.External.{Redis, Disk}
use hazshield_ingest.System.Carried.{waiting, Carried, Carried-trans, Carried-same}
use hazshield_ingest.System.{
  System, Action, started, judged, published, refused, dispatched, probed, written, ticked, drained,
  dispatcher_of, writer_of, with_dispatcher, with_writer, judging, step, run,
}

abbrev writes : Metrics → ℕ × ℕ
writes m = (m.warm_shed_total, m.warm_flushed_total)

module _ {p : Platform} {e : Services p} {g : Postgres} {x : Redis} {k : Disk} where
  -- The rows of the readings that an action accepts, and how many of these the limiter refuses.
  abbrev pub rows_at : System e g x k → Action p → List (StoredReading p)
  rows_at s (judged i a now r) = to_list (row_in a.registry (s.sums i).degraded r)
  rows_at s _ = []

  abbrev pub limited_at : System e g x k → Action p → ℕ
  limited_at s (judged i a now r) = (judging s i a now r).sum.rate_limited - (s.sums i).rate_limited
  limited_at s _ = 0

module _ {p : Platform} {e : Services p} {g : Postgres} {x : Redis} {k : Disk}
    (hot_rx : Receiver e.hot) (warm_rx : Receiver e.warm) (to_json : Violation p → List ℕ) where
  abbrev pub rows_along : System e g x k → List (Action p) → List (StoredReading p)
  rows_along s [] = []
  rows_along s (a ∷ acts) = rows_at s a ++ rows_along (step hot_rx warm_rx to_json s a) acts

  abbrev pub limited_along : System e g x k → List (Action p) → ℕ
  limited_along s [] = 0
  limited_along s (a ∷ acts) = limited_at s a + limited_along (step hot_rx warm_rx to_json s a) acts

  -- A handler's work on the lane, by what it stored.
  Carried-Stored :
      (s : System e g x k) (w' : Work e) (sum : IngestSummary) (sums : ℕ → IngestSummary)
      (rs : List (StoredReading p))
      → Stored e rs (record (s.work) { sum = sum }) w'
      → warm_rx.received w'.warm_tx ≡ warm_rx.received s.work.warm_tx
      → writes w'.metrics ≡ writes s.work.metrics
      → Carried warm_rx rs
          (w'.sum.rate_limited - sum.rate_limited)
          s
          (record s { work = w'; sums = sums })
  Carried-Stored s w' sum sums rs st same m = record {
    batches = [];
    counted = omega (
      arith,
      st.accounted,
      st.limited_grows,
      ap length before,
      ap length after,
      ap (λ t. t.0) m,
      ap (λ t. t.1) m,
      length-append (warm_rx.received s.work.warm_tx) (warm_rx.pending s.work.warm_tx),
      length-append (warm_rx.received s.work.warm_tx) (warm_rx.pending w'.warm_tx),
      length-append s.writer.buf (warm_rx.pending s.work.warm_tx),
      length-append s.writer.buf (warm_rx.pending w'.warm_tx),
    );
    flushed = omega (arith, ap (λ t. t.1) m);
    shed_grows = omega (arith, ap (λ t. t.0) m);
    dropped_grows = st.dropped_grows;
    complete = λ _ none_dropped none_limited.
        ap (λ t. s.writer.buf ++ t)
          (arrived (st.complete none_dropped (omega (arith, st.limited_grows))))
        ∙ sym (append_assoc s.writer.buf (warm_rx.pending s.work.warm_tx) rs);
    committed = rw append-nil (Sub-refl (g.committed s.writer.db));
  }
    where
      before :
          e.warm.accepted s.work.warm_tx
          ≡ warm_rx.received s.work.warm_tx ++ warm_rx.pending s.work.warm_tx
      before = warm_rx.accepted-split s.work.warm_tx

      after :
          e.warm.accepted w'.warm_tx ≡ warm_rx.received s.work.warm_tx ++ warm_rx.pending w'.warm_tx
      after = warm_rx.accepted-split w'.warm_tx ∙ ap (λ t. t ++ warm_rx.pending w'.warm_tx) same

      arrived :
          e.warm.accepted w'.warm_tx ≡ e.warm.accepted s.work.warm_tx ++ rs
          → warm_rx.pending w'.warm_tx ≡ warm_rx.pending s.work.warm_tx ++ rs
      arrived all = append_cancel_left (warm_rx.received s.work.warm_tx) _ _ (
          sym after
          ∙ all
          ∙ ap (λ t. t ++ rs) before
          ∙ append_assoc (warm_rx.received s.work.warm_tx) _ rs)

  -- The writer's round, which took the rows `rs` out of the channel.
  Carried-writer :
      (s : System e g x k) (c : e.warm.Chan) (w : Writer p g) (rs : List (StoredReading p))
      → Flow (writer_of s) w rs
      → others w.metrics ≡ others s.work.metrics
      → warm_rx.pending s.work.warm_tx ≡ rs ++ warm_rx.pending c
      → Carried warm_rx [] 0 s (with_writer s c w)
  Carried-writer s c w rs f same taken = record {
    batches = f.batches;
    counted = omega (
      arith,
      f.counted,
      ap (λ t. t.1) same,
      ap length taken,
      length-append rs (warm_rx.pending c),
      length-append w.buf (warm_rx.pending c),
      length-append s.writer.buf (warm_rx.pending s.work.warm_tx),
    );
    flushed = f.flushed;
    shed_grows = omega (
      arith,
      f.counted,
      f.flushed,
      Sub-length f.order,
      length-append (flat f.batches) w.buf,
      length-append s.writer.buf rs,
    );
    dropped_grows = omega (arith, ap (λ t. t.1) same);
    complete = λ none_shed _ _.
        sym (append_assoc (flat f.batches) w.buf (warm_rx.pending c))
        ∙ ap (λ t. t ++ warm_rx.pending c) (Flow-complete (writer_of s) w rs f none_shed)
        ∙ append_assoc s.writer.buf rs (warm_rx.pending c)
        ∙ ap (λ t. s.writer.buf ++ t) (sym taken)
        ∙ sym (append-nil (waiting warm_rx s));
    committed = f.written;
  }

  Carried-written :
      (s : System e g x k) → Carried warm_rx [] 0 s (step hot_rx warm_rx to_json s written)
  unfolding step
  Carried-written s = elim (Option-cases (warm_rx.recv s.work.warm_tx)) [
    | inl waits ↦ rw (waits, step) (Carried-same warm_rx s s refl refl refl refl refl)
    | inr ((r, c), takes) ↦
        rw (takes, step)
          (Carried-writer s c _ (r ∷ []) (Flow-step (writer_of s) (Warm.received r))
            (others-step (writer_of s) (Warm.received r))
            (warm_rx.recv_some s.work.warm_tx r c takes).1)
  ]

  Carried-dispatcher :
      (s : System e g x k) (c : e.hot.Chan) (t : Dispatcher x k)
      → warm_part t.metrics ≡ warm_part s.work.metrics
      → Carried warm_rx [] 0 s (with_dispatcher s c t)
  Carried-dispatcher s c t same =
      Carried-same warm_rx s (with_dispatcher s c t) refl refl (ap (λ m. m.0) same)
        (ap (λ m. m.1) same) (ap (λ m. m.2) same)

  Carried-dispatched :
      (s : System e g x k) → Carried warm_rx [] 0 s (step hot_rx warm_rx to_json s dispatched)
  unfolding step
  Carried-dispatched s = elim (Option-cases (hot_rx.recv s.work.hot_tx)) [
    | inl waits ↦ rw (waits, step) (Carried-same warm_rx s s refl refl refl refl refl)
    | inr ((v, c), takes) ↦
        rw (takes, step)
          (Carried-dispatcher s c _ (warm_part-step to_json (dispatcher_of s) (Hot.received v)))
  ]

  pub Carried-step :
      (s : System e g x k) (a : Action p)
      → Carried warm_rx (rows_at s a) (limited_at s a) s (step hot_rx warm_rx to_json s a)
  unfolding step
  Carried-step s (started i a) = Carried-same warm_rx s _ refl refl refl refl refl
  Carried-step s (judged i a now r) =
      let o = lookup r.sensor_id a.registry.sensors in
      let w = record (s.work) { sum = s.sums i } in
      Carried-Stored s (judging s i a now r) (s.sums i) _
        (to_list (row_in a.registry (s.sums i).degraded r))
        (Stored-judge e (s.sums i).degraded now r w o)
        (view-judge e warm_rx.received warm_rx.received-try_send (s.sums i).degraded now r w o)
        (metrics-judge e writes (λ m. refl) (λ m. refl) (λ m. refl) (s.sums i).degraded now r w o)
  Carried-step s (published i) = Carried-same warm_rx s _ refl refl refl refl refl
  Carried-step s refused = Carried-same warm_rx s _ refl refl refl refl refl
  Carried-step s dispatched = Carried-dispatched s
  Carried-step s probed =
      Carried-dispatcher s s.work.hot_tx _ (warm_part-step to_json (dispatcher_of s) Hot.probed)
  Carried-step s written = Carried-written s
  Carried-step s ticked =
      Carried-writer s s.work.warm_tx _ [] (Flow-step (writer_of s) Warm.tick)
        (others-step (writer_of s) Warm.tick) refl
  Carried-step s drained =
      Carried-writer s s.work.warm_tx _ [] (Flow-flush (writer_of s)) (others-flush (writer_of s))
        refl

  -- In any interleaving of handlers, dispatcher and writer, whatever the databases, the disk and the
  -- channels answer: the rows in the warm channel and in the writer's buffer, the rows counted as shed
  -- and as flushed, the readings counted as dropped and those over the limiter's budget are together
  -- as many as there were before and readings accepted since. The flushed rows make up batches that
  -- were committed, as one COPY each. If no row was shed, no reading dropped and none over budget,
  -- those batches, the buffer and the channel hold the rows of before and of the readings accepted
  -- since, in order.
  pub Carried-run :
      (acts : List (Action p)) (s : System e g x k)
      → Carried warm_rx
          (rows_along s acts)
          (limited_along s acts)
          s
          (run hot_rx warm_rx to_json s acts)
  unfolding run
  Carried-run [] s = Carried-same warm_rx s s refl refl refl refl refl
  Carried-run (a ∷ acts) s =
      let s1 = step hot_rx warm_rx to_json s a in
      Carried-trans warm_rx s s1 _ (rows_at s a) (rows_along s1 acts) (limited_at s a)
        (limited_along s1 acts) (Carried-step s a) (Carried-run acts s1)
