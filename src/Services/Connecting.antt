-- ===== src/Services/Connecting.antt =====
-- `NewRedisBackend` of pkg/backend/redis/redis.go, over the client's constructor and its `Ping`.
use mchat.Base.{◌≡◌, ap, Bool, [], Bytes}
use mchat.Services.{RedisConfig}

-- what is set of `redis.Options`
pub record RedisOptions : Type 0 where
  pub addr : Bytes
  pub password : Bytes

unfoldable pub redis_options : RedisConfig → RedisOptions
redis_options config = record { addr = config.endpoint; password = [] }

module _ {ℓ} {C : Type ℓ} (new_client : RedisOptions → C) (ping_fails : C → Bool) where
  -- the storage's client, and whether there is an error
  unfoldable pub new_redis_backend : RedisConfig → C × Bool
  unfolding redis_options
  new_redis_backend config =
      let client = new_client (redis_options config) in (client, ping_fails client)

  -- The constructor looks at nothing but the endpoint: neither the name nor the password of the user
  -- comes to the client.
  pub new_redis_backend_same :
      (config config' : RedisConfig)
      → config.endpoint ≡ config'.endpoint
      → new_redis_backend config ≡ new_redis_backend config'
  unfolding new_redis_backend redis_options
  new_redis_backend_same config config' same =
      ap
        (λ e.
          let client = new_client (record { addr = e; password = [] }) in
          (client, ping_fails client))
        same
