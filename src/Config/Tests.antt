-- ===== src/Config/Tests.antt =====
-- A small environment.
use Prim.Native.String.{String}
use text.Mathlib.Text.{◌==◌ as str_eq}
use hazshield_ingest.Prelude.{ℕ, ◌≡◌, ◌↔◌, refl, Option, none, some, if◌then◌else◌}
use hazshield_ingest.Config.{Config, deserialize, load}
use hazshield_ingest.Config.Agreement.{Agrees, load-Agrees}

-- The only number that this reader knows is "512".
abbrev parse : String → Option ℕ
parse s = if str_eq s "512" then some 512 else none

abbrev var : String → Option String
var k =
    if str_eq k "database_url"
    then some "postgres://db"
    else (if str_eq k "redis_url"
        then some "redis://r"
        else (if str_eq k "max_batch_size" then some "512" else none))

abbrev loaded : Config
loaded = record {
  bind_addr = "127.0.0.1:8020";
  database_url = "postgres://db";
  redis_url = "redis://r";
  warm_channel_capacity = 50000;
  max_batch_size = 512;
  spool_dir = "/opt/hazshield-ingest/spool";
}

load_run : load parse var ≡ some loaded
unfolding load deserialize
load_run = refl

load-Agrees_example : (load parse var ≡ some loaded) ↔ Agrees parse var loaded
load-Agrees_example = load-Agrees parse var loaded
