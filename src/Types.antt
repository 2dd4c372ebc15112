-- ===== src/Types.antt =====
-- src/types.rs and the row type of src/warm.rs: the data that the parts of the gateway exchange.
-- A `Uuid` is the 128-bit number that its bytes spell.
use Prim.Native.String.{String}
use hazshield_ingest.Prelude.{ℕ, List}
use hazshield_ingest.Platform.{Platform}

abbrev pub Uuid : Type 0
Uuid = ℕ

pub data SensorKind : Type 0 where
  gas_ch4 gas_co o2 temp vibration pressure airflow dust_pm10 seismic : SensorKind

-- `#[serde(rename_all = "snake_case")]`, which are also the names of the enum in the database.
abbrev pub kind_name : SensorKind → String
kind_name gas_ch4 = "gas_ch4"
kind_name gas_co = "gas_co"
kind_name o2 = "o2"
kind_name temp = "temp"
kind_name vibration = "vibration"
kind_name pressure = "pressure"
kind_name airflow = "airflow"
kind_name dust_pm10 = "dust_pm10"
kind_name seismic = "seismic"

pub data Severity : Type 0 where
  warn critical : Severity

pub data Quality : Type 0 where
  good suspect degraded_sampled : Quality

-- `quality as i16`
abbrev pub quality_code : Quality → ℕ
quality_code good = 0
quality_code suspect = 1
quality_code degraded_sampled = 2

module _ (p : Platform) where
  pub record Reading : Type 0 where
    pub sensor_id : Uuid
    pub ts : p.DateTime
    pub value : p.F32

  pub record ReadingBatch : Type 0 where
    pub readings : List Reading

  pub record Violation : Type 0 where
    pub sensor_id : Uuid
    pub zone_id : Uuid
    pub severity : Severity
    pub value : p.F32
    pub threshold : p.F64
    pub ts : p.DateTime

  pub record StoredReading : Type 0 where
    pub ts : p.DateTime
    pub sensor_id : Uuid
    pub value : p.F32
    pub quality : Quality
