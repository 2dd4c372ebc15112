-- ===== src/Metrics/Registration/Tests.antt =====
-- The metrics over a registry that is the list of their names.
use Prim.Native.String.{String}
use hazshield_ingest.Prelude.{
  ℕ, ◌≡◌, refl, subst, true, ◌&&◌, Option, some, none, List, [], ◌∷◌, ◌++◌, map, if◌then◌else◌,
}
use hazshield_ingest.Metrics.Registration.{Prometheus, Handles, new}
use hazshield_ingest.Metrics.Registration.Names.{is_valid_name, is_text}
use hazshield_ingest.Metrics.Registration.Documented.{
  Documented, is_new, are_new, are_valid, increasing_from,
}
use hazshield_ingest.Metrics.Registration.Complete.{fields, new-registered}

abbrev bucketed : String → String → List ℕ → Option String
bucketed n h [] = none
bucketed n h (b ∷ bs) =
    if is_valid_name n && (is_text h && increasing_from b bs) then some n else none

abbrev names : Prometheus
names = record {
  Metric = String;
  Registry = List String;
  int_counter = λ n h. if is_valid_name n && is_text h then some n else none;
  int_counter_vec =
      λ n h labels. if is_valid_name n && (is_text h && are_valid labels) then some n else none;
  int_gauge = λ n h. if is_valid_name n && is_text h then some n else none;
  histogram = bucketed;
  registry = [];
  register = λ c r. if is_new c r then some (r ++ (c ∷ [])) else none;
  registered = λ r. r;
  name_of = λ c. c;
}

map_self : (ns : List String) → map (λ (c : String). c) ns ≡ ns
map_self [] = refl
map_self (n ∷ ns) = rw (map_self ns) refl

names-Documented : Documented names
names-Documented = record {
  counter_made = λ n h v t. (n, rw (v, t) refl, refl);
  vec_made = λ n h labels v t l. (n, rw (v, t, l) refl, refl);
  gauge_made = λ n h v t. (n, rw (v, t) refl, refl);
  histogram_made = λ n h b bs v t l. (n, rw (v, t, l) refl, refl);
  starts_empty = refl;
  takes_new = λ c r e.
      let fresh : is_new c r ≡ true = subst (λ t. is_new c t ≡ true) (map_self r) e in
      (r ++ (c ∷ []), rw fresh refl, refl);
}

new-registered_example :
    (h : Handles names) × (new names ≡ some h)
    × (h.registry ≡ fields h)
    × (are_new [] (map (λ (c : String). c) (fields h)) ≡ true)
new-registered_example = new-registered names-Documented
