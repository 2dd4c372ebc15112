-- ===== src/Startup/Tests.antt =====
-- A start at which all goes well, and one with a warm channel that has no place or too many.
use hazshield_ingest.Prelude.{ℕ, ◌^◌, ◌-◌, ◌≡◌, ◌↔◌, ◌⊎◌, refl, true, some, List, [], ◌∷◌}
use hazshield_ingest.Platform.Sample.{sample}
use hazshield_ingest.Config.{Config}
use hazshield_ingest.Registry.{Row}
use hazshield_ingest.Ingest.Gateway.{AppState}
use hazshield_ingest.Startup.{
  Outside, invalidation_listener, panicked, drained, run, start_tasks, bind_address, serve_requests,
  shut_down,
}
use hazshield_ingest.Startup.Stages.{IsReady, load-first, run-IsReady}
use hazshield_ingest.Fixtures.{row}

abbrev config : ℕ → Config
config capacity = record {
  bind_addr = "127.0.0.1:8020";
  database_url = "postgres://db";
  redis_url = "redis://r";
  warm_channel_capacity = capacity;
  max_batch_size = 10;
  spool_dir = "/spool";
}

abbrev fine : Outside sample
fine = record {
  connect = λ url. true;
  fetch = some (row 7 "active" ∷ []);
  bind = λ addr. true;
  serve = true;
  max_permits = 2 ^ 61 - 1;
  writer_ms = 40;
  dispatcher_ms = 10000;
}

start_run : (run fine (some (config 50))).exit ≡ drained
unfolding run start_tasks bind_address serve_requests shut_down
start_run = rw (load-first fine.fetch (row 7 "active" ∷ []) refl) refl

no_room_run :
    ((run fine (some (config 0))).exit ≡ panicked)
    × ((run fine (some (config 0))).tasks ≡ invalidation_listener ∷ [])
unfolding run start_tasks
no_room_run = rw (load-first fine.fetch (row 7 "active" ∷ []) refl) (refl, refl)

-- One place more than tokio allows.
too_large_run : (run fine (some (config (2 ^ 61)))).exit ≡ panicked
unfolding run start_tasks
too_large_run = rw (load-first fine.fetch (row 7 "active" ∷ []) refl) refl

run-IsReady_example :
    ((state : AppState sample)
      → ((run fine (some (config 50))).served ≡ some state) ↔ IsReady fine (some (config 50)) state)
    × (((run fine (some (config 50))).tasks ≡ [])
        ⊎ ((rows : List (Row sample)) × (fine.fetch ≡ some rows)))
run-IsReady_example = run-IsReady fine (some (config 50))
