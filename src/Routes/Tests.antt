-- ===== src/Routes/Tests.antt =====
-- Readiness after a few reloads.
use hazshield_ingest.Prelude.{◌+◌, ◌≡◌, ◌↔◌, true, not, none, some, List, [], ◌∷◌, is_empty, arith}
use hazshield_ingest.Platform.Sample.{sample}
use hazshield_ingest.Registry.{Fetch, Session, messages, run_listener}
use hazshield_ingest.Registry.Reload.{all_fetches, succeeded}
use hazshield_ingest.Routes.{readyz}
use hazshield_ingest.Routes.Readiness.{found_any, readyz-run_listener}
use hazshield_ingest.Fixtures.{plant, row}

-- The table becomes empty, the next load fails.
abbrev emptied : List (Session sample × Fetch sample)
emptied = (messages (some (row 7 "active" ∷ []) ∷ some [] ∷ []), none) ∷ []

readyz-run_listener_example :
    let answer = readyz (run_listener plant emptied) true in
    ((answer.0 ≡ 200)
      ↔ ((true ≡ true) × (found_any (not (is_empty plant.sensors)) (all_fetches emptied) ≡ true)))
    × (answer.1.registry_generation ≡ plant.generation + succeeded (all_fetches emptied))
readyz-run_listener_example = readyz-run_listener plant emptied true (omega arith)
