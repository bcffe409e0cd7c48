-- ===== src/Worker/Outside.antt =====
-- A worker's configuration, and what the outside answers during one delivery.
use fyredocs_backend.Prelude.{ℕ, String, Bool, Option, List}
use fyredocs_backend.Config.{Env}
use fyredocs_backend.Store.{Result}
use fyredocs_backend.Store.Objects.{ObjectInfo}
use fyredocs_backend.Worker.Effects.{JobPayload}

-- A Go error: its text, whether a `recoverableError` is in its chain (`markRecoverable`), and
-- whether an error in its chain has a `Timeout` method.
pub record GoError : Type 0 where
  pub text : String
  pub marked : Bool
  pub has_timeout : Bool

pub data Try (A : Type 0) : Type 0 where
  done : A → Try A
  fails : GoError → Try A

pub record WorkerConfig : Type 0 where
  pub service_name : String
  pub allowed_tools : String → Bool
  pub has_jet_stream : Bool
  pub has_redis : Bool

-- What the tool produced: the output's base name and its metadata as JSON text ("" for nil).
pub record ProcessResult : Type 0 where
  pub output_name : String
  pub metadata : String

pub record CachedResult : Type 0 where
  pub output_key : String
  pub metadata : String

-- One delivery: the payload if it unmarshals, and the delivery count that JetStream states.
pub record Message : Type 0 where
  pub payload : Option JobPayload
  pub num_delivered : Option ℕ

-- The answers to the worker's calls: google/uuid, PostgreSQL, the object store, Redis, the file
-- system and the tool, and the environment. `cache_ttl` is `cacheTTL()` in seconds, 0 if caching is off; `cache_key` is
-- the key of the sorted ETags (`buildCacheKey`). A slot is refused if the context ends first.
pub record Outside : Type 0 where
  pub parse_uuid : String → Option String
  pub job_status : String → Result String
  pub cache_ttl : ℕ
  pub input_etags : List String → Option (List String)
  pub cache_key : String → String → List String → String
  pub cache_get : String → Option CachedResult
  pub stat_output : String → Option ObjectInfo
  pub copy_output : String → String → Bool
  pub make_scratch : Try (Unit {0})
  pub object_size : String → Try ℕ
  pub env : Env
  pub take_large_slot : Try (Unit {0})
  pub fetch_input : String → Try (Unit {0})
  pub make_out_dir : Try (Unit {0})
  pub process : String → List String → String → Try ProcessResult
  pub upload_output : String → Try ℕ
  pub create_output_row : String → ℕ → Try (Unit {0})
