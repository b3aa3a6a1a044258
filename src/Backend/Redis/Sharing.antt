-- ===== src/Backend/Redis/Sharing.antt =====
-- A participant and a channel of the same name share a hash.
use mathlib.Core.Bool.{Bool-set}
use mathlib.Core.List.{Mem, mem-cons, not-mem-nil}
use mathlib.Core.Logic.Or
use mchat.Base.{
  ◌≡◌, refl, ap, ◌∙◌, Bool, true, false, List, [], ◌∷◌, Option, none, some, arith, Bytes, codes,
  is_empty, equal_refl,
}
use mchat.Runtime.{Runtime}
use mchat.Dict.{Dict, lookup}
use mchat.Types.{Participant}
use mchat.Util.{sha256_checksum}
use mchat.Backend.Redis.{
  does_participant_exist, does_channel_exist, delete_channel, get_participants, auth_participant,
}
use mchat.Backend.Redis.Fields.{participants_key, channels_key, participant_of, read_all}
use mchat.Backend.Redis.Client.{RedisClient, IsRedis, find, or_empty}
use mchat.Backend.Redis.Keys.{sha256_checksum_key, set_keys}
use mchat.Backend.Redis.Effects.{keys_differ}
use mchat.Backend.Redis.Sound.{other_keys}

abbrev is_none {ℓ} : {A : Type ℓ} → Option A → Bool
is_none none = true
is_none (some a) = false

none_of {ℓ} : {A : Type ℓ} (o : Option A) → is_none o ≡ true → o ≡ none
none_of none h = refl
none_of (some a) h = cc

-- The loop panics where one of the hashes is missing.
read_all_panics {ℓ} :
    {A : Type ℓ} (of : Dict Bytes → A) (hash_at : Bytes → Dict Bytes) (k : Bytes)
    → is_empty (hash_at k) ≡ true
    → (ks : List Bytes) → Mem k ks
    → is_none (read_all of hash_at ks) ≡ true
unfolding read_all
read_all_panics of hash_at k missing [] m = absurd (not-mem-nil m)
read_all_panics of hash_at k missing (j ∷ ks) m =
    Or.elim (Bool-set _ _) (mem-cons.0 m) (λ e. ground (arith, ap (λ x. is_empty (hash_at x)) e))
      (λ later. ground (arith, read_all_panics of hash_at k missing ks later))

no_fields : (values : Dict Bytes) → ((f : Bytes) → lookup values f ≡ none) → is_empty values ≡ true
unfolding lookup
no_fields [] h = refl
no_fields ((f, v) ∷ values) h = ground (arith, h f, equal_refl f)

module _ (c : RedisClient) (rt : Runtime) (r : IsRedis c) (d : c.Db) (n : Bytes) where
  abbrev without_channel : c.Db
  without_channel = c.del (c.s_rem d channels_key n) (sha256_checksum rt n)

  no_field_left : (f : Bytes) → find c without_channel (sha256_checksum rt n) f ≡ none
  no_field_left f =
      r.find-del (c.s_rem d channels_key n) (sha256_checksum rt n) (sha256_checksum rt n) f
      ∙ (rw (equal_refl (sha256_checksum rt n)) refl)

  still_member :
      c.s_is_member d participants_key n ≡ true
      → c.s_is_member without_channel participants_key n ≡ true
  still_member is_member = ground (
    arith,
    r.member-del (c.s_rem d channels_key n) (sha256_checksum rt n) participants_key n,
    r.member-rem d channels_key n participants_key n,
    keys_differ (sha256_checksum rt n) participants_key (sha256_checksum_key rt n) set_keys.0,
    other_keys,
  )

  no_password : c.h_get without_channel (sha256_checksum rt n) (codes "Password") ≡ []
  no_password =
      r.get_lem without_channel (sha256_checksum rt n) (codes "Password")
      ∙ ap or_empty (no_field_left (codes "Password"))

  -- Where a participant and a channel have the same name, deleting the channel takes the hash of
  -- the participant with it: the deletion succeeds and the participant is still there, but no log
  -- in under the name succeeds, and the list of the participants panics.
  pub delete_channel_shared :
      does_participant_exist c d n ≡ true
      → does_channel_exist c d n ≡ true
      → (d' : c.Db) × (delete_channel c rt d n ≡ (d', true))
        × (does_participant_exist c d' n ≡ true)
        × ((p : Participant) → auth_participant c rt d' (record p { username = n }) ≡ false)
        × (get_participants c rt d' ≡ none)
  unfolding delete_channel does_participant_exist does_channel_exist auth_participant
      get_participants
  delete_channel_shared is_participant is_channel =
      let hash_at = λ (u : Bytes). c.h_get_all without_channel (sha256_checksum rt u) in
      let is_member = still_member is_participant in
      let missing = no_fields (hash_at n) no_field_left in
      (
        without_channel,
        rw is_channel refl,
        is_member,
        λ p. rw (is_member, no_password) refl,
        none_of (read_all participant_of hash_at (c.s_members without_channel participants_key)) (
            read_all_panics participant_of hash_at n missing
              (c.s_members without_channel participants_key)
              ((r.mem-members without_channel participants_key n).1 is_member)),
      )
