-- ===== src/Backend/Redis/Sound.antt =====
-- Every member of the sets of names and of messages has its hash, until something is deleted.
use mathlib.Core.List.{Mem, Mem-prop, mem-cons, mem-cons_self, not-mem-nil}
use mathlib.Core.Logic.Or
use mchat.Base.{
  ◌≡◌, ◌≢◌, refl, ap, ◌∙◌, true, false, ◌&&◌, List, [], ◌∷◌, Option, none, some, arith, Bytes,
  codes, is_empty, equal, equal_iff, equal_refl, &&_iff, if◌then◌else◌, Bool-cases, inl, inr,
}
use mchat.Runtime.{Runtime}
use mchat.Dict.{Dict}
use mchat.Types.{Participant, ChatMessage, Channel}
use mchat.Util.{sha256_checksum}
use mchat.Backend.Redis.{register_participant, store_message, register_channel}
use mchat.Backend.Redis.Fields.{
  participants_key, channels_key, messages_key, history_key, message_id, participant_fields,
  message_fields, channel_fields, read_all,
}
use mchat.Backend.Redis.Client.{RedisClient, IsRedis, find}
use mchat.Backend.Redis.Keys.{is_time, IsKeyed, over}
use mchat.Backend.Redis.Keyed.{
  register_participant-IsKeyed, register_channel-IsKeyed, store_message-IsKeyed,
}
use mchat.Backend.Redis.Effects.{
  Effect, register_participant-Effect, register_channel-Effect, store_message-Effect,
}

pub history_key_differs :
    (channel : Bytes)
    → (equal (history_key channel) participants_key ≡ false)
      × (equal (history_key channel) channels_key ≡ false)
      × (equal participants_key (history_key channel) ≡ false)
      × (equal channels_key (history_key channel) ≡ false)
unfolding history_key messages_key equal
history_key_differs [] = (refl, refl, refl, refl)
history_key_differs (x ∷ channel) = (refl, refl, refl, refl)

pub other_keys :
    (equal participants_key channels_key ≡ false) × (equal channels_key participants_key ≡ false)
unfolding equal
other_keys = (refl, refl)

module _ (c : RedisClient) (rt : Runtime) where
  pub record IsSound (d : c.Db) : Type 0 where
    pub keyed : IsKeyed c d
    pub participant_stored :
        (u : Bytes)
        → c.s_is_member d participants_key u ≡ true
        → find c d (sha256_checksum rt u) (codes "Username") ≢ none
    pub channel_stored :
        (n : Bytes)
        → c.s_is_member d channels_key n ≡ true
        → find c d (sha256_checksum rt n) (codes "Name") ≢ none
    pub message_stored :
        (channel id : Bytes)
        → c.s_is_member d (history_key channel) id ≡ true
        → find c d id (codes "Contents") ≢ none

  over_keeps :
      (fields : List (Bytes × Bytes)) (f : Bytes) (old : Option Bytes)
      → old ≢ none
      → over c fields f old ≢ none
  over_keeps [] f old h = h
  over_keeps ((name, value) ∷ fields) f old h =
      over_keeps fields f (if equal name f then some value else old) (ground arith)

  module _ (d d' : c.Db) (key : Bytes) (fields : List (Bytes × Bytes)) (set m : Bytes) where
    -- A field that is there stays there.
    finds_keep :
        Effect c d d' key fields set m → (k f : Bytes) → find c d k f ≢ none → find c d' k f ≢ none
    finds_keep e k f h = ground (arith, e.finds k f, over_keeps fields f (find c d k f) h)

    finds_new :
        Effect c d d' key fields set m
        → (f value : Bytes) → ((old : Option Bytes) → over c fields f old ≡ some value)
        → find c d' key f ≢ none
    finds_new e f value writes h =
        ground (arith, e.finds key f, equal_refl key, writes (find c d key f))

    -- The members of one set keep their hashes, if the new member has its own.
    stored_after :
        Effect c d d' key fields set m
        → (set0 f : Bytes) (key_of : Bytes → Bytes)
        → ((x : Bytes) → c.s_is_member d set0 x ≡ true → find c d (key_of x) f ≢ none)
        → (equal set set0 ≡ true → find c d' (key_of m) f ≢ none)
        → (x : Bytes) → c.s_is_member d' set0 x ≡ true
        → find c d' (key_of x) f ≢ none
    stored_after e set0 f key_of old new x is_member h =
        elim (Bool-cases (equal set set0 && equal m x)) [
          | inl same ↦
              let parts = (&&_iff (equal set set0) (equal m x)).0 same in
              new parts.0 (ap (λ y. find c d' (key_of y) f) ((equal_iff m x).0 parts.1) ∙ h)
          | inr other ↦ finds_keep e (key_of x) f (old x (ground (arith, e.members set0 x))) h
        ]

  module _ (r : IsRedis c) (d d' : c.Db) (v : IsSound d) where
    pub register_participant-IsSound :
        (p : Participant) → register_participant c rt d p ≡ some d' → IsSound d'
    unfolding equal
    register_participant-IsSound p h =
        let (free, e) = register_participant-Effect c rt r d v.keyed d' p h in
        let key = sha256_checksum rt p.username in
        let fields = participant_fields p (sha256_checksum rt p.password) in
        let after = stored_after d d' key fields participants_key p.username e in
        record {
          keyed = register_participant-IsKeyed c rt r d d' p v.keyed h;
          participant_stored =
              after participants_key (codes "Username") (sha256_checksum rt) v.participant_stored
                (λ same.
                  finds_new d d' key fields participants_key p.username e (codes "Username")
                    p.username (λ old. refl));
          channel_stored =
              after channels_key (codes "Name") (sha256_checksum rt) v.channel_stored
                (λ same. ground (arith, other_keys));
          message_stored = λ channel.
              after (history_key channel) (codes "Contents") (λ x. x) (v.message_stored channel)
                (λ same. ground (arith, history_key_differs channel));
        }

    pub register_channel-IsSound :
        (ch : Channel) → register_channel c rt d ch ≡ some d' → IsSound d'
    unfolding equal
    register_channel-IsSound ch h =
        let (free, e) = register_channel-Effect c rt r d v.keyed d' ch h in
        let key = sha256_checksum rt ch.name in
        let fields = channel_fields ch in
        let after = stored_after d d' key fields channels_key ch.name e in
        record {
          keyed = register_channel-IsKeyed c rt r d d' ch v.keyed h;
          participant_stored =
              after participants_key (codes "Username") (sha256_checksum rt) v.participant_stored
                (λ same. ground (arith, other_keys));
          channel_stored =
              after channels_key (codes "Name") (sha256_checksum rt) v.channel_stored (λ same.
                finds_new d d' key fields channels_key ch.name e (codes "Name") ch.name
                  (λ old. refl));
          message_stored = λ channel.
              after (history_key channel) (codes "Contents") (λ x. x) (v.message_stored channel)
                (λ same. ground (arith, history_key_differs channel));
        }

    pub store_message-IsSound :
        (m : ChatMessage) (now : Bytes)
        → is_time now ≡ true
        → store_message c rt d m now ≡ some d'
        → IsSound d'
    unfolding equal
    store_message-IsSound m now timed h =
        let e = store_message-Effect c rt r d v.keyed d' m now timed h in
        let id = message_id m now in
        let set = history_key m.channel in
        let after = stored_after d d' id (message_fields m) set id e in
        record {
          keyed = store_message-IsKeyed c rt r d d' m now timed v.keyed h;
          participant_stored =
              after participants_key (codes "Username") (sha256_checksum rt) v.participant_stored
                (λ same. ground (arith, history_key_differs m.channel));
          channel_stored =
              after channels_key (codes "Name") (sha256_checksum rt) v.channel_stored
                (λ same. ground (arith, history_key_differs m.channel));
          message_stored = λ channel.
              after (history_key channel) (codes "Contents") (λ x. x) (v.message_stored channel)
                (λ same.
                  finds_new d d' id (message_fields m) set id e (codes "Contents") m.contents
                    (λ old. refl));
        }

-- What a loop over the members of a set reads, where each has its hash.
module _ {ℓ} {A : Type ℓ} (of : Dict Bytes → A) (hash_at : Bytes → Dict Bytes) where
  pub read_all_total :
      (ks : List Bytes)
      → ((k : Bytes) → Mem k ks → is_empty (hash_at k) ≡ false)
      → (items : List A) × (read_all of hash_at ks ≡ some items)
        × ((k : Bytes) → Mem k ks → Mem (of (hash_at k)) items)
  unfolding read_all
  read_all_total [] h = ([], refl, λ k m. absurd (not-mem-nil m))
  read_all_total (k ∷ ks) h =
      let (items, reads, all_in) = read_all_total ks (λ j m. h j (mem-cons.1 (Or.inr m))) in
      (
        of (hash_at k) ∷ items,
        rw (h k mem-cons_self, reads) refl,
        λ j m.
            Or.elim Mem-prop (mem-cons.0 m) (λ e. rw e mem-cons_self)
              (λ later. mem-cons.1 (Or.inr (all_in j later))),
      )
