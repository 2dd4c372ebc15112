-- ===== src/Warm/Flow.antt =====
-- Where the rows go in src/warm.rs: each is written, still buffered or counted as shed, none twice
-- and none out of order.
use hazshield_ingest.Prelude.{
  ℕ, ◌+◌, ◌-◌, ◌≡◌, refl, sym, subst, ap, inl, inr, Option, none, some, List, [], ◌∷◌, ◌++◌, map,
  append_assoc, append-nil, length, length-append, length-drop, arith, Bool-cases, ltb, leb, ◌==◌,
  ◌&&◌, map-append,
}
use hazshield_ingest.Prelude.Sublists.{
  Sub, flat, flat-append, Sub-refl, Sub-trans, Sub-append, Sub-drop, Sub-extend, eq_of_Sub,
}
use hazshield_ingest.Platform.{Platform}
use hazshield_ingest.Types.{StoredReading}
use hazshield_ingest.Warm.Encode.{encode_binary}
use hazshield_ingest.Warm.Copy.{Copied, flush-cases}
use hazshield_ingest.Warm.Database.{Postgres}
use hazshield_ingest.Warm.{
  Event, received, tick, Writer, max_batch_rows, max_buffered, settle_flush, flush, push,
  flush_if_full, shed, step, run, spawn_writer,
}

module _ {p : Platform} where
  -- The rows that a history takes from the channel.
  abbrev pub rows_in : List (Event p) → List (StoredReading p)
  rows_in [] = []
  rows_in (received r ∷ evs) = r ∷ rows_in evs
  rows_in (tick ∷ evs) = rows_in evs

  rows_in-cons :
      (ev : Event p) (evs : List (Event p)) → rows_in (ev ∷ []) ++ rows_in evs ≡ rows_in (ev ∷ evs)
  rows_in-cons (received r) evs = refl
  rows_in-cons tick evs = refl

module _ {p : Platform} {g : Postgres} where
  -- From `w` to `w'`, with the rows `xs` received between.
  pub record Flow (w w' : Writer p g) (xs : List (StoredReading p)) : Type 0 where
    -- the batches whose flush succeeded, in order
    pub batches : List (List (StoredReading p))
    -- what they hold, followed by what is buffered, is what was there and came in, less some rows
    pub order : Sub (flat batches ++ w'.buf) (w.buf ++ xs)
    pub counted :
        length w'.buf + w'.metrics.warm_shed_total + w'.metrics.warm_flushed_total
        ≡ length w.buf + w.metrics.warm_shed_total + w.metrics.warm_flushed_total + length xs
    pub flushed :
        w'.metrics.warm_flushed_total ≡ w.metrics.warm_flushed_total + length (flat batches)
    -- each of these batches was committed, as one COPY
    pub written : Sub (g.committed w.db ++ map encode_binary batches) (g.committed w'.db)

  Flow-trans :
      (a b c : Writer p g) (xs ys : List (StoredReading p))
      → Flow a b xs
      → Flow b c ys
      → Flow a c (xs ++ ys)
  Flow-trans a b c xs ys h k = record {
    batches = h.batches ++ k.batches;
    order =
        subst (λ t. Sub (t ++ c.buf) (a.buf ++ (xs ++ ys))) (sym (flat-append h.batches k.batches))
          (rw (append_assoc, ← append_assoc a.buf xs ys)
            (Sub-trans (Sub-append (Sub-refl (flat h.batches)) k.order)
              (rw (← append_assoc (flat h.batches) b.buf ys) (Sub-append h.order (Sub-refl ys)))));
    counted = omega (arith, h.counted, k.counted, length-append xs ys);
    flushed = omega (
      arith,
      h.flushed,
      k.flushed,
      ap length (flat-append h.batches k.batches),
      length-append (flat h.batches) (flat k.batches),
    );
    written =
        rw (map-append, ← append_assoc)
          (Sub-trans (Sub-append h.written (Sub-refl (map encode_binary k.batches))) k.written);
  }

  Flow-same :
      (w w' : Writer p g)
      → w'.buf ≡ w.buf
      → w'.db ≡ w.db
      → w'.metrics.warm_shed_total ≡ w.metrics.warm_shed_total
      → w'.metrics.warm_flushed_total ≡ w.metrics.warm_flushed_total
      → Flow w w' []
  Flow-same w w' b d s f = record {
    batches = [];
    order =
        subst (λ t. Sub w'.buf t) (sym (append-nil w.buf))
          (subst (λ t. Sub w'.buf t) b (Sub-refl w'.buf));
    counted = omega (arith, ap length b);
    flushed = omega arith;
    written =
        subst (λ t. Sub t (g.committed w'.db)) (sym (append-nil (g.committed w.db)))
          (subst (λ t. Sub (g.committed t) (g.committed w'.db)) d (Sub-refl (g.committed w'.db)));
  }

  Flow-push : (w : Writer p g) (r : StoredReading p) → Flow w (push g w r) (r ∷ [])
  unfolding push
  Flow-push w r = record {
    batches = [];
    order = Sub-refl (w.buf ++ (r ∷ []));
    counted = omega (arith, length-append w.buf (r ∷ []));
    flushed = omega arith;
    written = rw append-nil (Sub-refl (g.committed w.db));
  }

  Flow-shed : (w : Writer p g) → Flow w (shed g w) []
  unfolding shed
  Flow-shed w = elim (Bool-cases (ltb max_buffered (length w.buf))) [
    | inl over ↦ rw over (record {
      batches = [];
      order = rw append-nil (Sub-drop (length w.buf - max_buffered) w.buf);
      counted = ground (arith, over, length-drop (length w.buf - max_buffered) w.buf);
      flushed = omega arith;
      written = rw append-nil (Sub-refl (g.committed w.db));
    })
    | inr within ↦ rw within (Flow-same w w refl refl refl refl)
  ]

  Flow-settle_flush :
      (w : Writer p g) (out : Option ℕ × g.Db)
      → Copied g w.db w.buf out
      → Flow w (settle_flush g w out) []
  unfolding settle_flush
  Flow-settle_flush w (some n, db) (added, count) = record {
    batches = w.buf ∷ [];
    order = simp append-nil (Sub-refl w.buf);
    counted = omega (arith, count);
    flushed = omega (arith, count, length-append w.buf []);
    written = rw added (Sub-refl _);
  }
  Flow-settle_flush w (none, db) c = record {
    batches = [];
    order = rw append-nil (Sub-refl w.buf);
    counted = omega arith;
    flushed = omega arith;
    written = rw append-nil (elim c [
      | inl kept ↦ rw kept (Sub-refl (g.committed w.db))
      | inr added ↦ rw added (Sub-extend (encode_binary w.buf ∷ []) (Sub-refl (g.committed w.db)))
    ]);
  }

  pub Flow-flush : (w : Writer p g) → Flow w (flush g w) []
  Flow-flush w =
      flush-cases g (λ w'. Flow w w' []) w (λ _. Flow-same w w refl refl refl refl)
        (λ out c. Flow-settle_flush w out c)

  Flow-flush_if_full : (w : Writer p g) → Flow w (flush_if_full g w) []
  unfolding flush_if_full
  Flow-flush_if_full w =
      elim (Bool-cases (leb max_batch_rows (length w.buf) && (w.backoff_ms == 0))) [
        | inl full ↦ rw full (Flow-flush w)
        | inr partial ↦ rw partial (Flow-same w w refl refl refl refl)
      ]

  pub Flow-step : (w : Writer p g) (ev : Event p) → Flow w (step g w ev) (rows_in (ev ∷ []))
  unfolding step
  Flow-step w (received r) =
      Flow-trans w _ _ (r ∷ []) []
        (Flow-trans w _ _ (r ∷ []) []
          (Flow-trans w _ _ (r ∷ []) [] (Flow-push w r) (Flow-flush_if_full _)) (Flow-shed _))
        (Flow-same _ _ refl refl refl refl)
  Flow-step w tick = Flow-trans w _ _ [] [] (Flow-flush w) (Flow-same _ _ refl refl refl refl)

  Flow-run : (w : Writer p g) (evs : List (Event p)) → Flow w (run g w evs) (rows_in evs)
  unfolding run
  Flow-run w [] = Flow-same w w refl refl refl refl
  Flow-run w (ev ∷ evs) =
      subst (λ t. Flow w (run g (step g w ev) evs) t) (rows_in-cons ev evs)
        (Flow-trans w _ _ (rows_in (ev ∷ [])) (rows_in evs) (Flow-step w ev)
          (Flow-run (step g w ev) evs))

  -- If no row was counted as shed, none is left out.
  pub Flow-complete :
      (w w' : Writer p g) (xs : List (StoredReading p)) (f : Flow w w' xs)
      → w'.metrics.warm_shed_total ≡ w.metrics.warm_shed_total
      → flat f.batches ++ w'.buf ≡ w.buf ++ xs
  Flow-complete w w' xs f none_shed = eq_of_Sub f.order (
      omega (
        arith,
        f.counted,
        f.flushed,
        length-append (flat f.batches) w'.buf,
        length-append w.buf xs,
      ))

  -- Over the task's whole life every row is counted once, as flushed, shed or left in the buffer;
  -- the rows of the batches that were flushed, and then those left, are the received ones in order,
  -- with some left out; each such batch was committed, as one COPY; and if no row was counted as
  -- shed, none is left out.
  pub spawn_writer-Flow :
      (w : Writer p g) (evs : List (Event p))
      → (f : Flow w (spawn_writer g w evs) (rows_in evs)) × ((spawn_writer g w
              evs).metrics.warm_shed_total
            ≡ w.metrics.warm_shed_total
          → flat f.batches ++ (spawn_writer g w evs).buf ≡ w.buf ++ rows_in evs)
  unfolding spawn_writer
  spawn_writer-Flow w evs =
      let f =
        subst (λ t. Flow w (flush g (run g w evs)) t) (append-nil (rows_in evs))
          (Flow-trans w _ _ (rows_in evs) [] (Flow-run w evs) (Flow-flush (run g w evs))) in
      (f, λ none_shed. Flow-complete w (flush g (run g w evs)) (rows_in evs) f none_shed)
