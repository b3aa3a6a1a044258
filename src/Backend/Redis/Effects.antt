-- ===== src/Backend/Redis/Effects.antt =====
-- What the three calls that store something do to the database: they write the fields of a hash and
-- put a member into a set.
use mchat.Base.{
  ◌≡◌, refl, subst, ◌∙◌, true, false, not, ◌&&◌, ◌||◌, List, Option, some, arith, Bytes, codes,
  is_empty, equal, equal_iff, equal_refl, if◌then◌else◌,
}
use mchat.Runtime.{Runtime}
use mchat.Types.{Participant, ChatMessage, Channel}
use mchat.Util.{sha256_checksum}
use mchat.Util.Checksum.{sha256_checksum-validate}
use mchat.Backend.Redis.{
  does_participant_exist, does_channel_exist, set_fields, register_participant, store_message,
  register_channel,
}
use mchat.Backend.Redis.Fields.{
  participants_key, channels_key, history_key, message_id, participant_fields, message_fields,
  channel_fields,
}
use mchat.Backend.Redis.Client.{RedisClient, IsRedis, find}
use mchat.Backend.Redis.Keys.{
  is_set_key, is_time, IsKeyed, over, sha256_checksum_key, message_id_key, set_keys,
  history_key_key, member-set_fields, find-set_fields, lookup-nonempty,
}

pub keys_differ : (a b : Bytes) → is_set_key a ≡ false → is_set_key b ≡ true → equal a b ≡ false
keys_differ a b ha hb = ground (arith, equal_iff a b)

module _ (c : RedisClient) where
  pub record Effect (d d' : c.Db) (key : Bytes) (fields : List (Bytes × Bytes)) (set m : Bytes)
      : Type 0 where
    pub finds :
        (k f : Bytes)
        → find c d' k f ≡ (if equal key k then over c fields f (find c d k f) else find c d k f)
    pub members :
        (k m' : Bytes) → c.s_is_member d' k m' ≡ (equal set k && equal m m' || c.s_is_member d k m')

  module _ (d d' : c.Db) (key : Bytes) (fields : List (Bytes × Bytes)) (set m : Bytes) where
    pub Effect-IsKeyed :
        Effect d d' key fields set m
        → is_set_key key ≡ false
        → is_set_key set ≡ true
        → IsKeyed c d
        → IsKeyed c d'
    Effect-IsKeyed e hash_key set_key v = record {
      no_hash = λ k f h. ground (arith, e.finds k f, v.no_hash k f, equal_iff key k);
      no_set = λ k m' h. ground (arith, e.members k m', v.no_set k m', equal_iff set k);
    }

  module _ (rt : Runtime) (r : IsRedis c) (d : c.Db) (v : IsKeyed c d) where
    -- A hash first, and then a member of a set.
    hash_set-Effect :
        (key : Bytes) (fields : List (Bytes × Bytes)) (set m : Bytes)
        → is_set_key key ≡ false
        → is_set_key set ≡ true
        → Effect d (c.s_add (set_fields c d key fields) set m) key fields set m
    hash_set-Effect key fields set m hash_key set_key =
        let written = set_fields c d key fields in
        let free = λ (m : Bytes). v.no_set key m hash_key in
        let other = keys_differ key set hash_key set_key in
        let no_hash = λ (f : Bytes).
          find-set_fields c r d key fields set f free ∙ (rw other (v.no_hash set f set_key)) in
        record {
          finds = λ k f. r.find-add written set m k f ∙ find-set_fields c r d key fields k f free;
          members = λ k m'.
              r.member-add written set m k m' no_hash
              ∙ (rw (member-set_fields c r d key fields k m') refl);
        }

    -- A member of a set first, and then a hash.
    set_hash-Effect :
        (key : Bytes) (fields : List (Bytes × Bytes)) (set m : Bytes)
        → is_set_key key ≡ false
        → is_set_key set ≡ true
        → Effect d (set_fields c (c.s_add d set m) key fields) key fields set m
    set_hash-Effect key fields set m hash_key set_key =
        let added = c.s_add d set m in
        let members = λ (k m' : Bytes). r.member-add d set m k m' (λ f. v.no_hash set f set_key) in
        let free : (m' : Bytes) → c.s_is_member added key m' ≡ false =
          λ m'. ground (arith, members key m', v.no_set key m' hash_key, equal_iff set key) in
        record {
          finds = λ k f.
              find-set_fields c r added key fields k f free ∙ (rw (r.find-add d set m k f) refl);
          members = λ k m'. member-set_fields c r added key fields k m' ∙ members k m';
        }

    -- The test behind the writes always passes: the first field was just written.
    written_nonempty :
        (key f value : Bytes) (fields : List (Bytes × Bytes))
        → is_set_key key ≡ false
        → ((old : Option Bytes) → over c fields f old ≡ some value)
        → is_empty (c.h_get_all (set_fields c d key fields) key) ≡ false
    written_nonempty key f value fields hash_key writes =
        let found = find-set_fields c r d key fields key f (λ m. v.no_set key m hash_key) in
        lookup-nonempty (c.h_get_all (set_fields c d key fields) key) f {v = value}
          (found ∙ (rw (equal_refl key) (writes (find c d key f))))

    registers_hash :
        (key f value : Bytes) (fields : List (Bytes × Bytes)) (set m : Bytes) (d' : c.Db)
        → is_set_key key ≡ false
        → is_set_key set ≡ true
        → ((old : Option Bytes) → over c fields f old ≡ some value)
        → (let written = set_fields c d key fields in
            some
              (if not (is_empty (c.h_get_all written key)) then c.s_add written set m else written))
          ≡ some d'
        → Effect d d' key fields set m
    registers_hash key f value fields set m d' hash_key set_key writes h =
        let written = set_fields c d key fields in
        let nonempty = written_nonempty key f value fields hash_key writes in
        let stored : c.s_add written set m ≡ d' = ground (arith, nonempty) in
        subst (λ x. Effect d x key fields set m) stored
          (hash_set-Effect key fields set m hash_key set_key)

    pub register_participant-Effect :
        (d' : c.Db) (p : Participant)
        → register_participant c rt d p ≡ some d'
        → (does_participant_exist c d p.username ≡ false)
          × Effect d d'
              (sha256_checksum rt p.username)
              (participant_fields p (sha256_checksum rt p.password))
              participants_key
              p.username
    unfolding register_participant equal
    register_participant-Effect d' p h =
        let key = sha256_checksum rt p.username in
        let hash = sha256_checksum rt p.password in
        let free : does_participant_exist c d p.username ≡ false =
          ground (arith, sha256_checksum-validate rt p.password) in
        (
          free,
          registers_hash key (codes "Username") p.username (participant_fields p hash)
              participants_key p.username d' (sha256_checksum_key rt p.username) set_keys.0
              (λ old. refl) (ground (arith, sha256_checksum-validate rt p.password)),
        )

    pub register_channel-Effect :
        (d' : c.Db) (ch : Channel)
        → register_channel c rt d ch ≡ some d'
        → (does_channel_exist c d ch.name ≡ false)
          × Effect d d' (sha256_checksum rt ch.name) (channel_fields ch) channels_key ch.name
    unfolding register_channel equal
    register_channel-Effect d' ch h =
        let key = sha256_checksum rt ch.name in
        let free : does_channel_exist c d ch.name ≡ false = ground arith in
        (
          free,
          registers_hash key (codes "Name") ch.name (channel_fields ch) channels_key ch.name d'
              (sha256_checksum_key rt ch.name) set_keys.1 (λ old. refl) (ground arith),
        )

    pub store_message-Effect :
        (d' : c.Db) (m : ChatMessage) (now : Bytes)
        → is_time now ≡ true
        → store_message c rt d m now ≡ some d'
        → Effect d d'
            (message_id m now)
            (message_fields m)
            (history_key m.channel)
            (message_id m now)
    unfolding store_message
    store_message-Effect d' m now timed h =
        let id = message_id m now in
        let key = history_key m.channel in
        let stored : set_fields c (c.s_add d key id) id (message_fields m) ≡ d' = ground arith in
        subst (λ x. Effect d x id (message_fields m) key id) stored
          (set_hash-Effect id (message_fields m) key id (message_id_key m now timed)
            (history_key_key m.channel))
