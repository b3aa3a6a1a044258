-- ===== src/Services/Backends.antt =====
-- Which storage the service runs on.
use mchat.Base.{◌≡◌, refl, Option, some, equal}
use mchat.Text.{to_lower}
use mchat.Backend.Defs.{
  BackendType, backend_type_dynamodb, backend_type_redis, backend_type_memory, backend_name,
}
use mchat.Services.{
  RedisConfig, DynamodbConfig, dynamodb_config, Flags, configure, create_storage, main_storage,
}

module _ {ℓ} {S : Type ℓ} (new_redis_backend : RedisConfig → Option S)
    (new_dynamodb_backend : DynamodbConfig → Option S) (new_memory_backend : S) where
  -- the storage of a type, with the flags that are meant for it
  abbrev pub storage_of : Flags → BackendType → Option S
  storage_of f backend_type_redis = new_redis_backend (record {
    password = f.redis_password;
    username = f.redis_username;
    endpoint = f.redis_endpoint;
  })
  storage_of f backend_type_dynamodb = new_dynamodb_backend dynamodb_config
  storage_of f backend_type_memory = some new_memory_backend

  -- Where the flag names a type of storages, in any case, the session runs on the storage of that
  -- type, made with its own flags: no configuration is missing.
  pub main_storage_named :
      (f : Flags) (t : BackendType)
      → to_lower f.backend ≡ backend_name t
      → main_storage new_redis_backend new_dynamodb_backend new_memory_backend f ≡ storage_of f t
  unfolding main_storage configure create_storage backend_name equal
  main_storage_named f backend_type_dynamodb h = rw (main_storage, configure, h) refl
  main_storage_named f backend_type_redis h = rw (main_storage, configure, h) refl
  main_storage_named f backend_type_memory h = rw (main_storage, configure, h) refl
