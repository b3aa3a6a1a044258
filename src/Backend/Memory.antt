-- ===== src/Backend/Memory.antt =====
-- pkg/backend/memory/memory.go. A mutex guards every method, so each one is one step.
pub mod Laws
pub mod Accounts
pub mod Steps
pub mod Listing
mod Examples
use mathlib.Core.Option
use mchat.Base.{
  ℕ, Bool, true, false, not, ◌&&◌, List, [], ◌∷◌, ◌++◌, map, Option, none, some, Bytes, is_empty,
  equal, if◌then◌else◌,
}
use mchat.Text.{equal_fold}
use mchat.Dict.{Dict, lookup, insert, delete, keys, values, has}
use mchat.Runtime.{Runtime}
use mchat.Types.{Participant, ChatMessage, Channel, no_channel, first_or_empty}
use mchat.Util.{sha256_checksum}
use mchat.Validation.{validate_password_sha256}
use mchat.Backend.Defs.{Backend, ChannelRef, stored}

pub record MemoryStore : Type 0 where
  pub participants : Dict Participant
  pub chat_history : List ChatMessage
  pub channels : Dict Channel

-- `NewMemoryBackend`
abbrev pub new_memory_backend : MemoryStore
new_memory_backend = record { participants = []; chat_history = []; channels = [] }

unfoldable pub does_participant_exist : MemoryStore → Bytes → Bool
does_participant_exist m username = has m.participants username

unfoldable pub does_channel_exist : MemoryStore → Bytes → Bool
does_channel_exist m channelname = has m.channels channelname

unfoldable pub has_participant : MemoryStore → Bytes → Bool
unfolding does_participant_exist
has_participant m username = does_participant_exist m username

unfoldable pub has_channel : MemoryStore → Bytes → Bool
unfolding does_channel_exist
has_channel m channelname = does_channel_exist m channelname

-- The history goes to the channel's own if the message names one.
unfoldable pub store_message : MemoryStore → ChatMessage → Option MemoryStore
store_message m message =
    if not (is_empty message.channel)
    then (elim (lookup m.channels message.channel) [
      | none ↦ none
      | some channel ↦ some (record m {
        channels =
            insert m.channels message.channel
              (record channel { chat_history = channel.chat_history ++ (message ∷ []) });
      })
    ])
    else some (record m { chat_history = m.chat_history ++ (message ∷ []) })

unfoldable pub register_channel : MemoryStore → Channel → Option MemoryStore
unfolding does_channel_exist
register_channel m channel =
    if does_channel_exist m channel.name
    then none
    else some (record m {
      channels =
          insert m.channels channel.name (record channel { chat_history = []; members = [] });
    })

unfoldable pub delete_channel : MemoryStore → Bytes → Option (MemoryStore × Bool)
unfolding does_channel_exist
delete_channel m channelname =
    if not (does_channel_exist m channelname)
    then none
    else some (record m { channels = delete m.channels channelname }, true)

unfoldable pub get_chat_history : MemoryStore → List Bytes → Option (List ChatMessage)
get_chat_history m channelname =
    if not (is_empty channelname) && not (equal (first_or_empty channelname) [])
    then Option.map (λ c. c.chat_history) (lookup m.channels (first_or_empty channelname))
    else some m.chat_history

-- A read or a write through a pointer to the channel under a key.
unfoldable pub load : MemoryStore → Bytes → Channel
load m key = elim (lookup m.channels key) [ none ↦ no_channel | some c ↦ c ]

unfoldable pub save : MemoryStore → Bytes → Channel → MemoryStore
save m key c = record m { channels = insert m.channels key c }

module _ (rt : Runtime) where
  unfoldable pub register_participant : MemoryStore → Participant → Option MemoryStore
  unfolding does_participant_exist
  register_participant m participant =
      let password_hash = sha256_checksum rt participant.password in
      if does_participant_exist m participant.username
      then none
      else if not (validate_password_sha256 password_hash)
      then none
      else some (record m {
        participants =
            insert m.participants participant.username
              (record participant { password = password_hash });
      })

  -- `participant, exists := …` assigns to the parameter: both passwords below are the stored one's.
  unfoldable pub auth_participant : MemoryStore → Participant → Bool
  auth_participant m participant = elim (lookup m.participants participant.username) [
    | none ↦ false
    | some participant' ↦
        let password_hash = sha256_checksum rt participant'.password in
        equal_fold participant'.password password_hash
  ]

  unfoldable pub get_channels : ℕ → MemoryStore → List ChannelRef
  get_channels n m = map stored (rt.arrange Bytes n (keys m.channels))

  unfoldable pub get_participants : ℕ → MemoryStore → List Participant
  get_participants n m = rt.arrange Participant n (values m.participants)

  abbrev pub memory_backend : Backend
  memory_backend = record {
    Store = MemoryStore;
    has_participant = has_participant;
    register_participant = register_participant;
    auth_participant = auth_participant;
    store_message = store_message;
    has_channel = has_channel;
    register_channel = register_channel;
    delete_channel = delete_channel;
    get_chat_history = get_chat_history;
    get_channels = λ n m. some (get_channels n m);
    get_participants = λ n m. some (get_participants n m);
    load = load;
    save = save;
  }
