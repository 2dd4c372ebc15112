-- ===== src/Config.antt =====
-- src/config.rs: the configuration from the environment. `var` gives the value of a variable by the
-- name of its field, as `envy` finds it behind the prefix "HAZ_"; `parse_usize` is serde's reading of
-- a number. dotenvy's part comes before, in what `var` is given as.
pub mod Agreement
mod Tests
use Prim.Native.String.{String}
use hazshield_ingest.Prelude.{ℕ, Option, none, some, ◌>>=◌}

pub record Config : Type 0 where
  pub bind_addr : String
  pub database_url : String
  pub redis_url : String
  pub warm_channel_capacity : ℕ
  pub max_batch_size : ℕ
  pub spool_dir : String

abbrev pub default_spool_dir : String
default_spool_dir = "/opt/hazshield-ingest/spool"

abbrev pub default_bind : String
default_bind = "127.0.0.1:8020"

abbrev pub default_channel_capacity : ℕ
default_channel_capacity = 50000

abbrev pub default_max_batch : ℕ
default_max_batch = 2000

-- `#[serde(default = "..")]` on a text and on a number.
abbrev pub text_or : String → Option String → String
text_or default none = default
text_or default (some text) = text

abbrev pub number_or : (String → Option ℕ) → ℕ → Option String → Option ℕ
number_or parse default none = some default
number_or parse default (some text) = parse text

-- The fields in the order of the struct; a required field that is missing is an error.
pub deserialize :
    String → Option String → Option String → Option ℕ → Option ℕ → String → Option Config
deserialize bind_addr database_url redis_url warm_channel_capacity max_batch_size spool_dir = do
  database_url ← database_url
  redis_url ← redis_url
  warm_channel_capacity ← warm_channel_capacity
  max_batch_size ← max_batch_size
  some (record {
    bind_addr = bind_addr;
    database_url = database_url;
    redis_url = redis_url;
    warm_channel_capacity = warm_channel_capacity;
    max_batch_size = max_batch_size;
    spool_dir = spool_dir;
  })

module _ (parse_usize : String → Option ℕ) (var : String → Option String) where
  pub load : Option Config
  load =
      deserialize (text_or default_bind (var "bind_addr")) (var "database_url") (var "redis_url")
        (number_or parse_usize default_channel_capacity (var "warm_channel_capacity"))
        (number_or parse_usize default_max_batch (var "max_batch_size"))
        (text_or default_spool_dir (var "spool_dir"))
