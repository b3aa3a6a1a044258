-- ===== src/Backend/Redis.antt =====
-- pkg/backend/redis/redis.go, over any client of the database. The mutex makes each method one
-- step; `none` is a panic.
pub mod Client
pub mod Fields
pub mod Keys
pub mod Effects
pub mod Keyed
pub mod Sound
pub mod Calls
pub mod Accounts
pub mod Messages
pub mod Sharing
pub mod Storage
pub mod TestClient
mod Examples
use mchat.Base.{
  ℕ, Bool, true, false, not, ◌&&◌, List, [], ◌∷◌, ◌++◌, Option, none, some, map, Bytes, codes,
  length, is_empty, if◌then◌else◌,
}
use mchat.Runtime.{Runtime}
use mchat.Text.{equal_fold}
use mchat.Dict.{Dict, lookup}
use mchat.Types.{Participant, ChatMessage, Channel}
use mchat.Util.{sha256_checksum}
use mchat.Validation.{validate_password_sha256}
use mchat.Backend.Redis.Fields.{
  participants_key, channels_key, general_key, messages_key, participant_fields, message_fields,
  channel_fields, field, participant_of, message_of, channel_of, read_all, message_id, history_key,
  asked,
}
use mchat.Backend.Redis.Client.{RedisClient, or_empty}

module _ (c : RedisClient) where
  open c use {Db, s_is_member, s_members, s_rem, s_pop_n, h_set, h_get_all, del}

  unfoldable pub does_participant_exist : Db → Bytes → Bool
  does_participant_exist d username = s_is_member d participants_key username

  unfoldable pub does_channel_exist : Db → Bytes → Bool
  does_channel_exist d channelname = s_is_member d channels_key channelname

  -- `HSet` for each field
  unfoldable pub set_fields : Db → Bytes → List (Bytes × Bytes) → Db
  set_fields d key [] = d
  set_fields d key ((name, value) ∷ fields) = set_fields (h_set d key name value) key fields

  -- `Del` of each message of a channel, which panics where one is missing
  unfoldable pub delete_ids : Db → List Bytes → Option Db
  delete_ids d [] = some d
  delete_ids d (id ∷ ids) =
      let rest = delete_ids (del d id) ids in if is_empty (h_get_all d id) then none else rest

  unfoldable pub delete_channel_messages : Db → Bytes → Option Db
  unfolding does_channel_exist delete_ids
  delete_channel_messages d name =
      let key = messages_key name in
      let ids = s_members d key in
      if not (does_channel_exist d name)
      then none
      else elim (delete_ids d ids) [ none ↦ none | some d' ↦ some (s_pop_n d' key (length ids)) ]

  -- the general chat, whose messages are removed from the set one by one
  unfoldable pub delete_general : Db → List Bytes → Db
  delete_general d [] = d
  delete_general d (id ∷ ids) = delete_general (del (s_rem d general_key id) id) ids

  unfoldable pub delete_all : Db → List Bytes → Option Db
  delete_all d [] = some d
  delete_all d (name ∷ names) = elim (delete_channel_messages d name) [
    | none ↦ none
    | some d' ↦ delete_all d' names
  ]

  unfoldable pub delete_messages : Db → List Bytes → Option Db
  unfolding delete_general delete_all
  delete_messages d names =
      let ids = s_members d general_key in
      if not (is_empty names)
      then delete_all d names
      else some (s_pop_n (delete_general d ids) general_key (length ids))

module _ (c : RedisClient) (rt : Runtime) where
  open c use {Db, s_members, s_add, s_rem, h_get, h_get_all, del}

  unfoldable pub register_participant : Db → Participant → Option Db
  unfolding does_participant_exist
  register_participant d p =
      let password_hash = sha256_checksum rt p.password in
      let key = sha256_checksum rt p.username in
      let written = set_fields c d key (participant_fields p password_hash) in
      if not (validate_password_sha256 password_hash)
      then none
      else if does_participant_exist c d p.username
      then none
      else some (
          if not (is_empty (h_get_all written key))
          then s_add written participants_key p.username
          else written)

  unfoldable pub delete_participant : Db → Bytes → Db
  unfolding does_participant_exist
  delete_participant d username =
      if does_participant_exist c d username
      then del (s_rem d participants_key username) (sha256_checksum rt username)
      else d

  unfoldable pub auth_participant : Db → Participant → Bool
  unfolding does_participant_exist
  auth_participant d p =
      let stored = h_get d (sha256_checksum rt p.username) (codes "Password") in
      if does_participant_exist c d p.username && not (is_empty stored)
      then equal_fold (sha256_checksum rt p.password) stored
      else false

  unfoldable pub store_message : Db → ChatMessage → Bytes → Option Db
  unfolding does_channel_exist
  store_message d m now =
      let id = message_id m now in
      if not (is_empty m.channel) && not (does_channel_exist c d m.channel)
      then none
      else some (set_fields c (s_add d (history_key m.channel) id) id (message_fields m))

  unfoldable pub register_channel : Db → Channel → Option Db
  unfolding does_channel_exist
  register_channel d ch =
      let key = sha256_checksum rt ch.name in
      let written = set_fields c d key (channel_fields ch) in
      if does_channel_exist c d ch.name
      then none
      else some (
          if not (is_empty (h_get_all written key))
          then s_add written channels_key ch.name
          else written)

  unfoldable pub delete_channel : Db → Bytes → Db × Bool
  unfolding does_channel_exist
  delete_channel d name =
      if does_channel_exist c d name
      then (del (s_rem d channels_key name) (sha256_checksum rt name), true)
      else (d, false)

  unfoldable pub get_chat_history : Db → List Bytes → Option (List ChatMessage)
  unfolding does_channel_exist history_key
  get_chat_history d names =
      let name = asked names in
      if not (is_empty name) && not (does_channel_exist c d name)
      then none
      else read_all message_of (h_get_all d) (s_members d (history_key name))

  unfoldable pub get_channels : Db → Option (List Channel)
  get_channels d =
      read_all channel_of (λ n. h_get_all d (sha256_checksum rt n)) (s_members d channels_key)

  unfoldable pub get_participants : Db → Option (List Participant)
  get_participants d =
      read_all participant_of (λ u. h_get_all d (sha256_checksum rt u))
        (s_members d participants_key)
