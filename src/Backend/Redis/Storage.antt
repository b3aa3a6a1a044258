-- ===== src/Backend/Redis/Storage.antt =====
-- The database as a storage of the sessions. The n-th message is stored at the n-th reading of a
-- clock; channels are read anew at each call, so that no pointer into the storage is handed out.
use mathlib.Core.Option
use mchat.Base.{ℕ, ◌+◌, ◌≡◌, refl, ap, ◌∙◌, true, Option, none, some, map, Bytes, equal}
use mchat.Runtime.{Runtime}
use mchat.Types.{no_channel}
use mchat.Backend.Defs.{Backend, own}
use mchat.Backend.Contract.{KeepsNames}
use mchat.Backend.Redis.{
  does_participant_exist, does_channel_exist, register_participant, auth_participant, store_message,
  register_channel, delete_channel, get_chat_history, get_channels, get_participants,
}
use mchat.Backend.Redis.Fields.{participants_key}
use mchat.Backend.Redis.Client.{RedisClient, IsRedis}
use mchat.Backend.Redis.Keyed.{
  delete_channel-IsKeyed, register_participant-IsKeyed, register_channel-IsKeyed,
  store_message-IsKeyed,
}
use mchat.Backend.Redis.Keys.{is_time, IsKeyed}
use mchat.Backend.Redis.Sound.{history_key_differs}
use mchat.Backend.Redis.Effects.{
  register_participant-Effect, register_channel-Effect, store_message-Effect,
}

module _ (c : RedisClient) where
  -- The keys of the database are in order, so that no command is refused.
  pub record Storage : Type 0 where
    pub db : c.Db
    pub readings : ℕ
    pub keyed : IsKeyed c db

  -- what a call leaves, or its panic
  unfoldable pub after_call :
      (o : Option c.Db) → ((d : c.Db) → o ≡ some d → IsKeyed c d) → ℕ → Option Storage
  after_call none keyed readings = none
  after_call (some d) keyed readings =
      some (record { db = d; readings = readings; keyed = keyed d refl })

  -- what the call of the database has returned
  call_of :
      (o : Option c.Db) (keyed : (d : c.Db) → o ≡ some d → IsKeyed c d) (readings : ℕ) (s : Storage)
      → after_call o keyed readings ≡ some s
      → o ≡ some s.db
  unfolding after_call
  call_of none keyed readings s h = cc
  call_of (some d) keyed readings s h = ap (Option.map (λ t. t.db)) h

  module _ (rt : Runtime) (r : IsRedis c) where
    module _ (clock : ℕ → Bytes) (timed : (n : ℕ) → is_time (clock n) ≡ true) where
      abbrev pub redis_backend : Backend
      redis_backend = record {
        Store = Storage;
        has_participant = λ s u. does_participant_exist c s.db u;
        register_participant = λ s p.
            after_call (register_participant c rt s.db p)
              (λ d h. register_participant-IsKeyed c rt r s.db d p s.keyed h) s.readings;
        auth_participant = λ s p. auth_participant c rt s.db p;
        store_message = λ s m.
            after_call (store_message c rt s.db m (clock s.readings))
              (λ d h.
                store_message-IsKeyed c rt r s.db d m (clock s.readings) (timed s.readings) s.keyed
                  h)
              (s.readings + 1);
        has_channel = λ s n. does_channel_exist c s.db n;
        register_channel = λ s ch.
            after_call (register_channel c rt s.db ch)
              (λ d h. register_channel-IsKeyed c rt r s.db d ch s.keyed h) s.readings;
        delete_channel = λ s n. some (
          record s {
            db = (delete_channel c rt s.db n).0;
            keyed = delete_channel-IsKeyed c rt r s.db n s.keyed;
          },
          (delete_channel c rt s.db n).1,
        );
        get_chat_history = λ s names. get_chat_history c rt s.db names;
        get_channels = λ n s. Option.map (map own) (get_channels c rt s.db);
        get_participants = λ n s. get_participants c rt s.db;
        load = λ s key. no_channel;
        save = λ s key ch. s;
      }

      -- Over any client of the database with the documented effects and any clock, the database
      -- keeps the participants: a name is registered by its own registration and by no other step,
      -- and stays so.
      pub redis_backend-KeepsNames : KeepsNames redis_backend
      unfolding does_participant_exist equal
      redis_backend-KeepsNames = record {
        has-register = λ s s' p u h.
            let call =
              call_of (register_participant c rt s.db p)
                (λ d h. register_participant-IsKeyed c rt r s.db d p s.keyed h) s.readings s' h in
            (register_participant-Effect c rt r s.db s.keyed s'.db p call).1.members
              participants_key u;
        has-store = λ s s' m u h.
            let call =
              call_of (store_message c rt s.db m (clock s.readings))
                (λ d h.
                  store_message-IsKeyed c rt r s.db d m (clock s.readings) (timed s.readings)
                    s.keyed h)
                (s.readings + 1) s' h in
            let effect =
              store_message-Effect c rt r s.db s.keyed s'.db m (clock s.readings) (timed s.readings)
                call in
            effect.members participants_key u ∙ (rw (history_key_differs m.channel).0 refl);
        has-register_channel = λ s s' ch u h.
            let call =
              call_of (register_channel c rt s.db ch)
                (λ d h. register_channel-IsKeyed c rt r s.db d ch s.keyed h) s.readings s' h in
            (register_channel-Effect c rt r s.db s.keyed s'.db ch call).1.members participants_key
              u;
        has-save = λ s k ch u. refl;
      }
