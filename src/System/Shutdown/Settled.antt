-- ===== src/System/Shutdown/Settled.antt =====
-- What the life of the gateway of src/main.rs comes to: the handlers and tasks interleaved, then the
-- drain of the two channels.
use hazshield_ingest.Prelude.{
  ℕ, ◌+◌, ◌<◌, ◌≡◌, refl, sym, ap, subst, ◌∙◌, ◌⊎◌, inl, inr, true, List, [], ◌++◌, map, length,
  append-nil, nil_of_length, arith,
}
use hazshield_ingest.Prelude.Sublists.{flat}
use hazshield_ingest.Platform.{Platform}
use hazshield_ingest.Types.{Violation, StoredReading}
use hazshield_ingest.Lane.Receiver.{Receiver}
use hazshield_ingest.Ingest.Gateway.{Services}
use hazshield_ingest.Warm.Copy.{NothingLeft}
use hazshield_ingest.Warm.Database.{Postgres}
use hazshield_ingest.Hot.Spool.{IsLine}
use hazshield_ingest.Hot.Kept.{Has, Holds}
use hazshield_ingest.Hot.External.{Redis, Disk, WritesWhole}
use hazshield_ingest.System.{System, Action, dispatcher_of, run}
use hazshield_ingest.System.Safe.{IsSomewhere, Safe, Safe-trans}
use hazshield_ingest.System.Alarms.{alarms_in, Safe-run}
use hazshield_ingest.System.Carried.{waiting, Carried, Carried-trans}
use hazshield_ingest.System.Rows.{rows_along, limited_along, Carried-run}
use hazshield_ingest.System.Shutdown.{Turn, Ending, drain, begun}
use hazshield_ingest.System.Shutdown.Left.{
  dispatcher_turns, writer_turns, done, HotLeft-drain, WarmLeft-drain,
}
use hazshield_ingest.System.Shutdown.Buffer.{WriterLeft, WriterLeft-drain}
use hazshield_ingest.System.Shutdown.Drained.{Carried-drain, Safe-drain}

module _ {p : Platform} {e : Services p} {g : Postgres} {x : Redis} {k : Disk}
    (hot_rx : Receiver e.hot) (warm_rx : Receiver e.warm) (to_json : Violation p → List ℕ) where
  -- A gateway that came from `s` to its end, with the violations `vs` and the rows `rows` between.
  pub record Settled (ls : List (List ℕ)) (vs : List (Violation p)) (rows : List (StoredReading p))
      (limited : ℕ) (s : System e g x k) (n : Ending e g x k) : Type 0 where
    pub ended : (n.dispatcher_done ≡ true) × (n.writer_done ≡ true)
    pub safe : Safe hot_rx to_json ls vs s n.system
    pub delivered :
        n.system.work.metrics.hot_lost_total ≡ s.work.metrics.hot_lost_total
        → (q : List ℕ) → IsSomewhere hot_rx to_json q ls s ⊎ Has q (map to_json vs)
        → Has q (x.stream n.system.dispatcher.server) ⊎ Has q safe.file
    pub carried : Carried warm_rx rows limited s n.system
    pub stored :
        n.system.work.metrics.warm_shed_total ≡ s.work.metrics.warm_shed_total
        → n.system.work.metrics.warm_degraded_dropped ≡ s.work.metrics.warm_degraded_dropped
        → limited ≡ 0
        → flat carried.batches ++ n.system.writer.buf ≡ waiting warm_rx s ++ rows
    pub buffer_left : NothingLeft g n.system.writer

  -- With the hot channel empty, a violation is in the stream or in the file.
  settled_at :
      (n : Ending e g x k) (file : List (List ℕ)) (q : List ℕ)
      → hot_rx.pending n.system.work.hot_tx ≡ []
      → IsSomewhere hot_rx to_json q file n.system
      → Has q (x.stream n.system.dispatcher.server) ⊎ Has q file
  settled_at n file q none_left (inl h) = inl h
  settled_at n file q none_left (inr (inl h)) = inr h
  settled_at n file q none_left (inr (inr h)) =
      absurd (subst (λ t. Has q (map to_json t)) none_left h)

  Settled-of :
      (ls : List (List ℕ)) (vs : List (Violation p)) (rows : List (StoredReading p)) (limited : ℕ)
      (s : System e g x k) (n : Ending e g x k)
      → Safe hot_rx to_json ls vs s n.system
      → Carried warm_rx rows limited s n.system
      → (n.dispatcher_done ≡ true) × (length (hot_rx.pending n.system.work.hot_tx) ≡ 0)
      → (n.writer_done ≡ true) × (length (warm_rx.pending n.system.work.warm_tx) ≡ 0)
      → NothingLeft g n.system.writer
      → Settled ls vs rows limited s n
  Settled-of ls vs rows limited s n safe carried (hot_done, hot_empty) (warm_done, warm_empty)
        left =
      record {
        ended = (hot_done, warm_done);
        safe = safe;
        delivered =
            λ same q w. settled_at n safe.file q (nil_of_length _ hot_empty) (safe.kept same q w);
        carried = carried;
        stored = λ shed dropped none_limited.
            ap (λ t. flat carried.batches ++ t)
              (sym (append-nil n.system.writer.buf)
                ∙ ap (λ t. n.system.writer.buf ++ t) (sym (nil_of_length _ warm_empty)))
            ∙ carried.complete shed dropped none_limited;
        buffer_left = left;
      }

module _ {p : Platform} {e : Services p} {g : Postgres} {x : Redis} {k : Disk}
    (hot_rx : Receiver e.hot) (warm_rx : Receiver e.warm) (to_json : Violation p → List ℕ)
    (whole : WritesWhole k) (printed : (v : Violation p) → IsLine (to_json v)) where
  -- From any state whose spill file is the text of payload lines, after any interleaving of handlers
  -- and tasks, the drain ends both tasks once each has turned to its channel more often than the
  -- channel has messages, in whatever order. If no loss was counted, every violation among the readings
  -- judged, and what was in the stream, the file and the hot channel before, is in the stream or in
  -- the file. If no row was shed or dropped or over the limiter's budget, the batches that were
  -- committed and the writer's buffer hold the rows from before and of the accepted readings, in
  -- order; and the buffer is empty unless the last flush failed. This is so on a disk whose failed
  -- writes leave the file as it was.
  pub drain-Settled :
      (acts : List (Action p)) (ts : List Turn) (ls : List (List ℕ)) (s : System e g x k)
      → Holds ls (dispatcher_of s)
      → length (hot_rx.pending (run hot_rx warm_rx to_json s acts).work.hot_tx)
        < dispatcher_turns ts
      → length (warm_rx.pending (run hot_rx warm_rx to_json s acts).work.warm_tx) < writer_turns ts
      → Settled hot_rx warm_rx to_json ls
          (alarms_in acts)
          (rows_along hot_rx warm_rx to_json s acts)
          (limited_along hot_rx warm_rx to_json s acts)
          s
          (drain hot_rx warm_rx to_json (begun (run hot_rx warm_rx to_json s acts)) ts)
  drain-Settled acts ts ls s v hot_turns warm_turns =
      let s1 = run hot_rx warm_rx to_json s acts in
      let n = drain hot_rx warm_rx to_json (begun s1) ts in
      let rows = rows_along hot_rx warm_rx to_json s acts in
      let limited = limited_along hot_rx warm_rx to_json s acts in
      let (writer_ended, warm_empty) =
        done n.writer_done _ _ _ (WarmLeft-drain hot_rx warm_rx to_json ts (begun s1) _ refl)
          warm_turns in
      Settled-of hot_rx warm_rx to_json ls (alarms_in acts) rows limited s n
        (subst (λ vs. Safe hot_rx to_json ls vs s n.system) (append-nil (alarms_in acts))
          (Safe-trans hot_rx to_json s s1 n.system ls (alarms_in acts) []
            (Safe-run hot_rx warm_rx to_json whole printed acts ls s v)
            (λ file held. Safe-drain hot_rx warm_rx to_json whole printed ts file (begun s1) held)))
        (subst (λ i. Carried warm_rx rows i s n.system) (omega arith)
          (subst (λ rs. Carried warm_rx rs (limited + 0) s n.system) (append-nil rows)
            (Carried-trans warm_rx s s1 n.system rows [] limited 0
              (Carried-run hot_rx warm_rx to_json acts s)
              (Carried-drain hot_rx warm_rx to_json ts (begun s1)))))
        (done n.dispatcher_done _ _ _ (HotLeft-drain hot_rx warm_rx to_json ts (begun s1) _ refl)
          hot_turns)
        (writer_ended, warm_empty)
        (subst (λ b. WriterLeft hot_rx warm_rx to_json b n.system) writer_ended
          (WriterLeft-drain hot_rx warm_rx to_json ts (begun s1) tt))
