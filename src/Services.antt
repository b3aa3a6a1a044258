-- ===== src/Services.antt =====
-- services/session/main.go, from the flags to the configuration, and what pkg/session/session.go
-- makes of a configuration: the storage and the timeouts. `none` is a panic.
pub mod Backends
pub mod Timeouts
pub mod Connecting
mod Examples
use mchat.Base.{
  ℕ, ◌+◌, ◌-◌, ◌*◌, ◌%◌, ◌^◌, Bool, Option, none, some, ltb, Bytes, equal, if◌then◌else◌,
}
use mchat.Text.{to_lower}
use mchat.Text.Atoi.{ℤ, pos, negsuc}
use mchat.Backend.Defs.{
  BackendType, backend_type_dynamodb, backend_type_redis, backend_type_memory, backend_name,
}

pub record RedisConfig : Type 0 where
  pub password : Bytes
  pub username : Bytes
  pub endpoint : Bytes

pub data DynamodbConfig : Type 0 where
  dynamodb_config : DynamodbConfig

-- The durations are counts of nanoseconds.
pub record Config : Type 0 where
  pub network : Bytes
  pub addr : Bytes
  pub session_timeout : ℤ
  pub participant_timeout : ℤ
  pub backend_type : BackendType
  pub redis : Option RedisConfig
  pub dynamodb : Option DynamodbConfig

-- what the flags are set to
pub record Flags : Type 0 where
  pub network : Bytes
  pub address : Bytes
  pub session_timeout : ℤ
  pub participant_timeout : ℤ
  pub backend : Bytes
  pub redis_endpoint : Bytes
  pub redis_username : Bytes
  pub redis_password : Bytes

-- The type of a new `Config` is the zero of the constants.
abbrev pub initial_config : Flags → Config
initial_config f = record {
  network = f.network;
  addr = f.address;
  session_timeout = f.session_timeout;
  participant_timeout = f.participant_timeout;
  backend_type = backend_type_dynamodb;
  redis = none;
  dynamodb = none;
}

unfoldable pub configure : Flags → Option Config
unfolding to_lower backend_name
configure f =
    let config = initial_config f in
    let name = to_lower f.backend in
    if equal name (backend_name backend_type_redis)
    then some (record config {
      backend_type = backend_type_redis;
      redis = some (record {
        password = f.redis_password;
        username = f.redis_username;
        endpoint = f.redis_endpoint;
      });
    })
    else if equal name (backend_name backend_type_dynamodb)
    then some
        (record config { backend_type = backend_type_dynamodb; dynamodb = some dynamodb_config })
    else if equal name (backend_name backend_type_memory)
    then some (record config { backend_type = backend_type_memory })
    else none

-- `time.Second`, in nanoseconds
abbrev pub second : ℕ
second = 1000000000

-- the int64 of a word
abbrev pub to_int64 : ℕ → ℤ
to_int64 u = if ltb u (2 ^ 63) then pos u else negsuc (2 ^ 64 - u - 1)

-- `timeout * time.Second` of `CreateSession`, `Run` and `handleConnection`, which wraps around
unfoldable pub times_second : ℤ → ℤ
times_second (pos n) = to_int64 ((n * second) % 2 ^ 64)
times_second (negsuc n) = to_int64 ((2 ^ 64 - ((n + 1) * second) % 2 ^ 64) % 2 ^ 64)

-- The constructors of the storages, of which two may fail.
module _ {ℓ} {S : Type ℓ} (new_redis_backend : RedisConfig → Option S)
    (new_dynamodb_backend : DynamodbConfig → Option S) (new_memory_backend : S) where
  -- the switch of `CreateSession`, where a missing configuration is a panic
  unfoldable pub create_storage : Config → Option S
  create_storage config = elim config.backend_type [
    | backend_type_redis ↦ elim config.redis [ none ↦ none | some c ↦ new_redis_backend c ]
    | backend_type_dynamodb ↦ elim config.dynamodb [ none ↦ none | some c ↦ new_dynamodb_backend c ]
    | backend_type_memory ↦ some new_memory_backend
  ]

  -- `main` up to the storage of its session
  unfoldable pub main_storage : Flags → Option S
  unfolding configure create_storage
  main_storage f = elim (configure f) [ none ↦ none | some config ↦ create_storage config ]
