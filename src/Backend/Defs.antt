-- ===== src/Backend/Defs.antt =====
-- pkg/backend/backend.go: the interface of the storages. An operation that may panic returns an
-- option, `none` for the panic.
use mchat.Base.{ℕ, Bool, List, Option, Bytes, codes}
use mchat.Types.{Participant, ChatMessage, Channel}

pub data BackendType : Type 0 where
  backend_type_dynamodb backend_type_redis backend_type_memory : BackendType

-- `BackendTypes`
unfoldable pub backend_name : BackendType → Bytes
backend_name backend_type_dynamodb = codes "dynamodb"
backend_name backend_type_redis = codes "redis"
backend_name backend_type_memory = codes "memory"

-- A `*types.Channel`: a channel that only its holder points to, or the one that the storage keeps
-- under a key. No operation of the server deletes a channel or puts another one under its key, so
-- the key stands for the pointer.
pub data ChannelRef : Type 0 where
  own : Channel → ChannelRef
  stored : Bytes → ChannelRef

-- The number is that of the `range` over a map, where one is made.
pub record Backend : Type 1 where
  pub Store : Type 0
  pub has_participant : Store → Bytes → Bool
  pub register_participant : Store → Participant → Option Store
  pub auth_participant : Store → Participant → Bool
  pub store_message : Store → ChatMessage → Option Store
  pub has_channel : Store → Bytes → Bool
  pub register_channel : Store → Channel → Option Store
  pub delete_channel : Store → Bytes → Option (Store × Bool)
  pub get_chat_history : Store → List Bytes → Option (List ChatMessage)
  pub get_channels : ℕ → Store → Option (List ChannelRef)
  pub get_participants : ℕ → Store → Option (List Participant)
  -- a read and a write through a pointer that `get_channels` returned
  pub load : Store → Bytes → Channel
  pub save : Store → Bytes → Channel → Store
