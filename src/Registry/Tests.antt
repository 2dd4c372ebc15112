-- ===== src/Registry/Tests.antt =====
-- Snapshots and reloads.
use hazshield_ingest.Prelude.{◌+◌, ◌≡◌, none, some, List, [], ◌∷◌, lookup, arith}
use hazshield_ingest.Platform.Sample.{sample}
use hazshield_ingest.Types.{Uuid}
use hazshield_ingest.Registry.{
  Registry, Row, Fetch, Session, not_subscribed, messages, load, run_listener,
}
use hazshield_ingest.Registry.Snapshot.{find_last, Entry, lookup-load}
use hazshield_ingest.Registry.Reload.{all_fetches, newest, succeeded, run_listener_lem}
use hazshield_ingest.Fixtures.{plant, row}

abbrev table : List (Row sample)
table = row 7 "active" ∷ row 8 "retired" ∷ row 7 "retired" ∷ []

-- Two loads fail, one succeeds; then the connection is lost, and a last load succeeds.
abbrev history : List (Session sample × Fetch sample)
history =
    (messages (some table ∷ none ∷ []), none) ∷ (not_subscribed, some (row 7 "active" ∷ [])) ∷ []

lookup-load_example :
    (reg : Registry sample) × (load (some table) 3 ≡ some reg)
    × (reg.generation ≡ 3)
    × ((k : Uuid) → Entry (find_last k table) (lookup k reg.sensors))
lookup-load_example = lookup-load table 3

run_listener_lem_example : run_listener plant history ≡ record {
  sensors = newest plant.sensors (all_fetches history);
  generation = plant.generation + succeeded (all_fetches history);
}
run_listener_lem_example = run_listener_lem plant history (omega arith)
