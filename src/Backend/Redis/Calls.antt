-- ===== src/Backend/Redis/Calls.antt =====
-- The calls that the server makes of the storage, which delete nothing.
use mchat.Base.{◌≡◌, ◌↔◌, Bool, true, false, List, [], ◌∷◌, none, some, arith, Bytes, codes}
use mchat.Runtime.{Runtime}
use mchat.Types.{Participant, ChatMessage, Channel}
use mchat.Util.{sha256_checksum}
use mchat.Backend.Redis.{
  register_participant, store_message, register_channel, get_chat_history, get_channels,
  get_participants,
}
use mchat.Backend.Redis.Fields.{channels_key, participants_key, participant_of, channel_of}
use mchat.Backend.Redis.Client.{RedisClient, IsRedis, find}
use mchat.Backend.Redis.Keys.{is_time, found_nonempty}
use mchat.Backend.Redis.Sound.{
  IsSound, register_participant-IsSound, register_channel-IsSound, store_message-IsSound,
  read_all_total,
}
use mchat.Backend.Redis.Accounts.{participants_present}
use mchat.Backend.Redis.Messages.{is_open, history_total}

module _ (c : RedisClient) where
  -- A database in which nothing is stored.
  pub record IsEmpty (d : c.Db) : Type 0 where
    pub no_members : (k m : Bytes) → c.s_is_member d k m ≡ false
    pub no_fields : (k f : Bytes) → find c d k f ≡ none

  pub data Call (rt : Runtime) (d d' : c.Db) : Type 0 where
    registers : (p : Participant) → register_participant c rt d p ≡ some d' → Call rt d d'
    registers_channel : (ch : Channel) → register_channel c rt d ch ≡ some d' → Call rt d d'
    stores :
        (m : ChatMessage) (now : Bytes)
        → is_time now ≡ true
        → store_message c rt d m now ≡ some d'
        → Call rt d d'

  pub data Reach (rt : Runtime) : c.Db → Type 0 where
    begins : {d : c.Db} → IsEmpty d → Reach rt d
    calls : {d d' : c.Db} → Reach rt d → Call rt d d' → Reach rt d'

  module _ (rt : Runtime) (r : IsRedis c) where
    Empty-IsSound : (d : c.Db) → IsEmpty d → IsSound c rt d
    Empty-IsSound d e = record {
      keyed = record { no_hash = λ k f h. e.no_fields k f; no_set = λ k m h. e.no_members k m };
      participant_stored = λ u h. ground (arith, e.no_members participants_key u);
      channel_stored = λ n h. ground (arith, e.no_members channels_key n);
      message_stored = λ channel id h. absurd (false_true (e.no_members _ id) h);
    }
      where
        false_true : {b : Bool} → b ≡ false → b ≡ true → ⊥
        false_true e h = cc

    pub Call-IsSound : {d d' : c.Db} → Call rt d d' → IsSound c rt d → IsSound c rt d'
    Call-IsSound {d} {d'} (registers p h) v = register_participant-IsSound c rt r d d' v p h
    Call-IsSound {d} {d'} (registers_channel ch h) v = register_channel-IsSound c rt r d d' v ch h
    Call-IsSound {d} {d'} (stores m now timed h) v =
        store_message-IsSound c rt r d d' v m now timed h

    pub Reach-IsSound : {d : c.Db} → Reach rt d → IsSound c rt d
    Reach-IsSound {d} (begins e) = Empty-IsSound d e
    Reach-IsSound (calls reach call) = Call-IsSound call (Reach-IsSound reach)

    -- After any calls that register participants and channels and store messages, in a database
    -- that was empty, the lists of the participants and of the channels are there, and a history
    -- is there exactly for the empty name, which is the general chat, and for the channels.
    pub reads_reached :
        {d : c.Db}
        → Reach rt d
        → ((ps : List Participant) × (get_participants c rt d ≡ some ps))
          × ((chs : List Channel) × (get_channels c rt d ≡ some chs))
          × ((n : Bytes) → (get_chat_history c rt d (n ∷ []) ≡ none) ↔ (is_open c rt r d n ≡ false))
    unfolding get_participants get_channels get_chat_history
    reads_reached {d} reach =
        let v = Reach-IsSound reach in
        let (ps, reads, _) =
          read_all_total participant_of (λ u. c.h_get_all d (sha256_checksum rt u))
            (c.s_members d participants_key) (participants_present c rt r d v) in
        let (chs, reads_channels, _) =
          read_all_total channel_of (λ n. c.h_get_all d (sha256_checksum rt n))
            (c.s_members d channels_key)
            (λ n m.
              found_nonempty (c.h_get_all d (sha256_checksum rt n)) (codes "Name")
                (v.channel_stored n ((r.mem-members d channels_key n).0 m))) in
        (
          (ps, reads),
          (chs, reads_channels),
          λ n. (λ missing. ground (arith, history_total c rt r d n v), λ closed. ground arith),
        )
