-- ===== src/Backend/Redis/Keyed.antt =====
-- What no call of the storage changes: which keys are those of sets and which of hashes.
use mchat.Base.{◌≡◌, true, some, arith, Bytes}
use mchat.Runtime.{Runtime}
use mchat.Types.{Participant, ChatMessage, Channel}
use mchat.Util.{sha256_checksum}
use mchat.Backend.Redis.{register_participant, store_message, register_channel, delete_channel}
use mchat.Backend.Redis.Fields.{
  participants_key, channels_key, participant_fields, channel_fields, message_fields, history_key,
  message_id,
}
use mchat.Backend.Redis.Client.{RedisClient, IsRedis}
use mchat.Backend.Redis.Keys.{
  is_time, IsKeyed, sha256_checksum_key, set_keys, history_key_key, message_id_key,
}
use mchat.Backend.Redis.Effects.{
  Effect-IsKeyed, register_participant-Effect, register_channel-Effect, store_message-Effect,
}

module _ (c : RedisClient) (rt : Runtime) (r : IsRedis c) where
  pub delete_channel-IsKeyed :
      (d : c.Db) (n : Bytes) → IsKeyed c d → IsKeyed c (delete_channel c rt d n).0
  unfolding delete_channel
  delete_channel-IsKeyed d n v =
      let key = sha256_checksum rt n in
      let removed = c.s_rem d channels_key n in
      record {
        no_hash = λ k f h.
            ground
              (arith, v.no_hash k f h, r.find-del removed key k f, r.find-rem d channels_key n k f);
        no_set = λ k m h. ground (
          arith,
          v.no_set k m h,
          r.member-del removed key k m,
          r.member-rem d channels_key n k m,
        );
      }

  pub register_participant-IsKeyed :
      (d d' : c.Db) (p : Participant)
      → IsKeyed c d
      → register_participant c rt d p ≡ some d'
      → IsKeyed c d'
  register_participant-IsKeyed d d' p v h =
      let key = sha256_checksum rt p.username in
      let fields = participant_fields p (sha256_checksum rt p.password) in
      Effect-IsKeyed c d d' key fields participants_key p.username
        (register_participant-Effect c rt r d v d' p h).1 (sha256_checksum_key rt p.username)
        set_keys.0 v

  pub register_channel-IsKeyed :
      (d d' : c.Db) (ch : Channel)
      → IsKeyed c d
      → register_channel c rt d ch ≡ some d'
      → IsKeyed c d'
  register_channel-IsKeyed d d' ch v h =
      Effect-IsKeyed c d d' (sha256_checksum rt ch.name) (channel_fields ch) channels_key ch.name
        (register_channel-Effect c rt r d v d' ch h).1 (sha256_checksum_key rt ch.name) set_keys.1 v

  pub store_message-IsKeyed :
      (d d' : c.Db) (m : ChatMessage) (now : Bytes)
      → is_time now ≡ true
      → IsKeyed c d
      → store_message c rt d m now ≡ some d'
      → IsKeyed c d'
  store_message-IsKeyed d d' m now timed v h =
      let id = message_id m now in
      Effect-IsKeyed c d d' id (message_fields m) (history_key m.channel) id
        (store_message-Effect c rt r d v d' m now timed h) (message_id_key m now timed)
        (history_key_key m.channel) v
