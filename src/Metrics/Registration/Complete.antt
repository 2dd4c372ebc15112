-- ===== src/Metrics/Registration/Complete.antt =====
-- `Metrics::new` of src/metrics.rs does not panic and leaves no metric out of the registry.
use Prim.Native.String.{String}
use hazshield_ingest.Prelude.{
  ◌≡◌, refl, sym, ap, ap₂, subst, ◌∙◌, Bool, true, false, ◌&&◌, some, List, [], ◌∷◌, ◌++◌, map,
  map-append, append_assoc, append-nil,
}
use hazshield_ingest.Metrics.Registration.{Prometheus, Handles, register_each, new}
use hazshield_ingest.Metrics.Registration.Documented.{Documented, Made, is_new, are_new}

both : (a b : Bool) → (a && b) ≡ true → (a ≡ true) × (b ≡ true)
both false b h = absurd cc
both true b h = (refl, h)

abbrev warm_names : List String
warm_names =
    "warm_flushed_rows_total" ∷ "warm_flush_failures_total" ∷ "warm_shed_rows_total"
    ∷ "warm_degraded_total" ∷ "warm_buffered_rows" ∷ "warm_flush_seconds" ∷ []

abbrev other_names : List String
other_names =
    "hot_violations_sent_total" ∷ "hot_violations_spilled_total" ∷ "hot_violations_replayed_total"
    ∷ "hot_violations_lost_total" ∷ "hot_redis_up" ∷ "ingest_readings_total"
    ∷ "ingest_violations_total" ∷ "ingest_batch_size" ∷ "ingest_handler_seconds" ∷ []

-- The metrics of the struct, in the order in which they are registered.
abbrev pub fields : {x : Prometheus} → Handles x → List x.Metric
fields h =
    h.warm_flushed_total ∷ h.warm_flush_failures_total ∷ h.warm_shed_total ∷ h.warm_degraded_total
    ∷ h.warm_buffered ∷ h.warm_flush_seconds ∷ h.hot_sent_total ∷ h.hot_spilled_total
    ∷ h.hot_replayed_total ∷ h.hot_lost_total ∷ h.hot_redis_up ∷ h.readings ∷ h.violations
    ∷ h.batch_size ∷ h.handler_seconds ∷ []

module _ {x : Prometheus} (doc : Documented x) where
  -- Metrics with the names `ms`, which the registry does not have, are all taken, in order.
  register_each_new :
      (cs : List x.Metric) (r : x.Registry) (ns ms : List String)
      → map x.name_of (x.registered r) ≡ ns
      → map x.name_of cs ≡ ms
      → are_new ns ms ≡ true
      → (r' : x.Registry) × (register_each x cs r ≡ some r')
        × (x.registered r' ≡ x.registered r ++ cs)
        × (map x.name_of (x.registered r') ≡ ns ++ ms)
  unfolding register_each
  register_each_new [] r ns [] h k e =
      (r, refl, sym (append-nil (x.registered r)), h ∙ sym (append-nil ns))
  register_each_new [] r ns (m ∷ ms) h k e = absurd cc
  register_each_new (c ∷ cs) r ns [] h k e = absurd cc
  register_each_new (c ∷ cs) r ns (m ∷ ms) h k e =
      let name : x.name_of c ≡ m = cc in
      let names : map x.name_of cs ≡ ms = cc in
      let (fresh, later) = both (is_new m ns) (are_new (ns ++ (m ∷ [])) ms) e in
      let (r₁, taken, holds) = doc.takes_new c r (
        subst (λ t. is_new t (map x.name_of (x.registered r)) ≡ true) (sym name)
          (subst (λ t. is_new m t ≡ true) (sym h) fresh)) in
      let held : map x.name_of (x.registered r₁) ≡ ns ++ (m ∷ []) =
        ap (map x.name_of) holds
        ∙ map-append x.name_of (x.registered r) (c ∷ [])
        ∙ ap₂ (λ a b. a ++ b) h (ap (λ t. t ∷ []) name) in
      let (r₂, taken₂, holds₂, held₂) =
        register_each_new cs r₁ (ns ++ (m ∷ [])) ms held names later in
      (
        r₂,
        rw taken taken₂,
        holds₂ ∙ ap (λ t. t ++ cs) holds ∙ append_assoc (x.registered r) (c ∷ []) cs,
        held₂ ∙ append_assoc ns (m ∷ []) ms,
      )

  -- Both rounds of registration, of metrics with those names.
  register_all :
      (warm others : List x.Metric)
      → map x.name_of warm ≡ warm_names
      → map x.name_of others ≡ other_names
      → (r₁ r₂ : x.Registry) × (register_each x warm x.registry ≡ some r₁)
        × (register_each x others r₁ ≡ some r₂)
        × (x.registered r₂ ≡ warm ++ others)
        × (are_new [] (map x.name_of (warm ++ others)) ≡ true)
  register_all warm others w o =
      let (r₁, e₁, held₁, names₁) =
        register_each_new warm x.registry [] warm_names (ap (map x.name_of) doc.starts_empty) w
          refl in
      let (r₂, e₂, held₂, names₂) =
        register_each_new others r₁ warm_names other_names names₁ o refl in
      let whole : x.registered r₂ ≡ warm ++ others =
        held₂ ∙ ap (λ t. t ++ others) (held₁ ∙ ap (λ t. t ++ warm) doc.starts_empty) in
      (
        r₁,
        r₂,
        e₁,
        e₂,
        whole,
        subst (λ t. are_new [] t ≡ true) (sym names₂ ∙ ap (map x.name_of) whole) refl,
      )

  hot-Made :
      Made x "hot_violations_sent_total"
        (x.int_counter "hot_violations_sent_total" "Violations XADDed to the stream")
      × Made x "hot_violations_spilled_total"
          (x.int_counter "hot_violations_spilled_total" "Violations written to spill file")
      × Made x "hot_violations_replayed_total"
          (x.int_counter "hot_violations_replayed_total" "Spilled violations replayed to stream")
      × Made x "hot_violations_lost_total" (
          x.int_counter "hot_violations_lost_total"
            "Violations LOST (spill unwritable) — must stay 0")
      × Made x "hot_redis_up" (x.int_gauge "hot_redis_up" "1 when the hot lane has Redis")
  hot-Made = (
    doc.counter_made _ _ refl refl,
    doc.counter_made _ _ refl refl,
    doc.counter_made _ _ refl refl,
    doc.counter_made _ _ refl refl,
    doc.gauge_made _ _ refl refl,
  )

  -- `Metrics::new` does not panic, and its registry has every metric of the struct, once, and no
  -- other, under names that are all different, with a crate that makes metrics with valid names,
  -- labels and buckets and registers every metric whose name is new.
  pub new-registered :
      (h : Handles x) × (new x ≡ some h)
      × (x.registered h.registry ≡ fields h)
      × (are_new [] (map x.name_of (fields h)) ≡ true)
  unfolding new
  new-registered =
      let (readings, e₁, n₁) =
        doc.vec_made "ingest_readings_total" "Readings by processing result" ("result" ∷ []) refl
          refl refl in
      let (violations, e₂, n₂) =
        doc.vec_made "ingest_violations_total" "Threshold violations by severity" ("severity" ∷ [])
          refl refl refl in
      let (batch_size, e₃, n₃) =
        doc.histogram_made "ingest_batch_size" "Readings per batch" 100000
          (500000 ∷ 1000000 ∷ 2500000 ∷ 5000000 ∷ 10000000 ∷ 20000000 ∷ []) refl refl refl in
      let (handler_seconds, e₄, n₄) =
        doc.histogram_made "ingest_handler_seconds" "Ingest handler latency" 5
          (10 ∷ 25 ∷ 50 ∷ 100 ∷ 250 ∷ 500 ∷ 1000 ∷ []) refl refl refl in
      let (flushed, e₅, n₅) =
        doc.counter_made "warm_flushed_rows_total" "Rows written via COPY" refl refl in
      let (failures, e₆, n₆) =
        doc.counter_made "warm_flush_failures_total" "Failed COPY flushes" refl refl in
      let (shed, e₇, n₇) =
        doc.counter_made "warm_shed_rows_total" "Bulk rows shed during outage" refl refl in
      let (degraded, e₈, n₈) =
        doc.vec_made "warm_degraded_total" "Degraded-mode decisions" ("action" ∷ []) refl refl
          refl in
      let (buffered, e₉, n₉) =
        doc.gauge_made "warm_buffered_rows" "Rows waiting in writer buffer" refl refl in
      let (flush, f₁, m₁) =
        doc.histogram_made "warm_flush_seconds" "COPY flush latency" 10
          (25 ∷ 50 ∷ 100 ∷ 250 ∷ 500 ∷ 1000 ∷ 2500 ∷ []) refl refl refl in
      let ((sent, f₂, m₂), (spilled, f₃, m₃), (replayed, f₄, m₄), (lost, f₅, m₅), (up, f₆, m₆)) =
        hot-Made in
      let (_, _, g₁, g₂, whole, distinct) =
        register_all (flushed ∷ failures ∷ shed ∷ degraded ∷ buffered ∷ flush ∷ [])
          (sent ∷ spilled ∷ replayed ∷ lost ∷ up ∷ readings ∷ violations ∷ batch_size
            ∷ handler_seconds ∷ [])
          (cc) (cc) in
      (
        _,
        rw (e₁, e₂, e₃, e₄, e₅, e₆, e₇, e₈, e₉, f₁, g₁, f₂, f₃, f₄, f₅, f₆, g₂) refl,
        whole,
        distinct,
      )
