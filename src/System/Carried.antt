-- ===== src/System/Carried.antt =====
-- Where a row is between the handlers of src/ingest.rs and PostgreSQL: the relation that the runs of
-- the whole gateway are stated with.
use hazshield_ingest.Prelude.{
  ℕ, ◌+◌, ◌≤◌, ◌≡◌, ◌∙◌, sym, ap, List, [], ◌++◌, map, map-append, append_assoc, append-nil, length,
  length-append, arith,
}
use hazshield_ingest.Prelude.Sublists.{flat, flat-append, Sub, Sub-refl, Sub-append, Sub-trans}
use hazshield_ingest.Platform.{Platform}
use hazshield_ingest.Types.{StoredReading}
use hazshield_ingest.Lane.Receiver.{Receiver}
use hazshield_ingest.Ingest.Gateway.{Services}
use hazshield_ingest.Warm.Encode.{encode_binary}
use hazshield_ingest.Warm.Database.{Postgres}
use hazshield_ingest.Hot.External.{Redis, Disk}
use hazshield_ingest.System.{System}

module _ {p : Platform} {e : Services p} {g : Postgres} {x : Redis} {k : Disk}
    (warm_rx : Receiver e.warm) where
  -- The rows that are neither flushed nor shed nor dropped: the writer's buffer, then the channel.
  abbrev pub waiting : System e g x k → List (StoredReading p)
  waiting s = s.writer.buf ++ warm_rx.pending s.work.warm_tx

  -- The rows that are accounted for.
  abbrev pub accounted : System e g x k → ℕ
  accounted s =
      length (waiting s)
      + s.work.metrics.warm_shed_total
      + s.work.metrics.warm_flushed_total
      + s.work.metrics.warm_degraded_dropped

  -- From `s` to `s'`, with the readings of the rows `rows` accepted between, `limited` of which were
  -- over the limiter's budget.
  pub record Carried (rows : List (StoredReading p)) (limited : ℕ) (s s' : System e g x k)
      : Type 0 where
    -- the batches that were flushed, in order
    pub batches : List (List (StoredReading p))
    pub counted : accounted s' + limited ≡ accounted s + length rows
    pub flushed :
        s'.work.metrics.warm_flushed_total
        ≡ s.work.metrics.warm_flushed_total + length (flat batches)
    pub shed_grows : s.work.metrics.warm_shed_total ≤ s'.work.metrics.warm_shed_total
    pub dropped_grows : s.work.metrics.warm_degraded_dropped ≤ s'.work.metrics.warm_degraded_dropped
    pub complete :
        s'.work.metrics.warm_shed_total ≡ s.work.metrics.warm_shed_total
        → s'.work.metrics.warm_degraded_dropped ≡ s.work.metrics.warm_degraded_dropped
        → limited ≡ 0
        → flat batches ++ waiting s' ≡ waiting s ++ rows
    pub committed :
        Sub (g.committed s.writer.db ++ map encode_binary batches) (g.committed s'.writer.db)

  pub Carried-trans :
      (a b c : System e g x k) (xs ys : List (StoredReading p)) (m n : ℕ)
      → Carried xs m a b
      → Carried ys n b c
      → Carried (xs ++ ys) (m + n) a c
  Carried-trans a b c xs ys m n h t = record {
    batches = h.batches ++ t.batches;
    counted = omega (arith, h.counted, t.counted, length-append xs ys);
    flushed = omega (
      arith,
      h.flushed,
      t.flushed,
      ap length (flat-append h.batches t.batches),
      length-append (flat h.batches) (flat t.batches),
    );
    shed_grows = omega (arith, h.shed_grows, t.shed_grows);
    dropped_grows = omega (arith, h.dropped_grows, t.dropped_grows);
    complete = λ shed dropped none_limited.
        ap (λ f. f ++ waiting c) (flat-append h.batches t.batches)
        ∙ append_assoc (flat h.batches) (flat t.batches) (waiting c)
        ∙ ap (λ f. flat h.batches ++ f)
            (t.complete (omega (arith, h.shed_grows, t.shed_grows))
              (omega (arith, h.dropped_grows, t.dropped_grows)) (omega arith))
        ∙ sym (append_assoc (flat h.batches) (waiting b) ys)
        ∙ ap (λ f. f ++ ys)
            (h.complete (omega (arith, h.shed_grows, t.shed_grows))
              (omega (arith, h.dropped_grows, t.dropped_grows)) (omega arith))
        ∙ append_assoc (waiting a) xs ys;
    committed =
        rw (map-append, ← append_assoc)
          (Sub-trans (Sub-append h.committed (Sub-refl (map encode_binary t.batches))) t.committed);
  }

  -- An action that leaves the lane alone.
  pub Carried-same :
      (s s' : System e g x k)
      → s'.writer ≡ s.writer
      → s'.work.warm_tx ≡ s.work.warm_tx
      → s'.work.metrics.warm_shed_total ≡ s.work.metrics.warm_shed_total
      → s'.work.metrics.warm_flushed_total ≡ s.work.metrics.warm_flushed_total
      → s'.work.metrics.warm_degraded_dropped ≡ s.work.metrics.warm_degraded_dropped
      → Carried [] 0 s s'
  Carried-same s s' w c shed flushed dropped = record {
    batches = [];
    counted = omega (arith, ap length same);
    flushed = omega arith;
    shed_grows = omega arith;
    dropped_grows = omega arith;
    complete = λ _ _ _. same ∙ sym (append-nil (waiting s));
    committed = rw (w, append-nil) (Sub-refl (g.committed s.writer.db));
  }
    where
      same : waiting s' ≡ waiting s
      same =
          ap (λ t. t.buf ++ warm_rx.pending s'.work.warm_tx) w
          ∙ ap (λ t. s.writer.buf ++ warm_rx.pending t) c
