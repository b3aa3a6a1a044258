-- ===== src/Backend/Redis/Accounts.antt =====
-- Participants in the database, and their passwords.
use mathlib.Core.List.{Mem}
use mchat.Base.{
  ◌≡◌, ◌↔◌, refl, ap, subst, ◌∙◌, true, false, List, [], ◌∷◌, Option, some, arith, Bytes, codes,
  is_empty, equal, equal_refl, length,
}
use mchat.Runtime.{Runtime}
use mchat.Types.{Participant}
use mchat.Util.{sha256_checksum}
use mchat.Util.Checksum.{sha256_checksum-equal_fold, sha256_checksum-validate}
use mchat.Validation.Credentials.{validate_password_sha256_iff}
use mchat.Backend.Redis.{register_participant, auth_participant, get_participants}
use mchat.Backend.Redis.Fields.{participants_key, participant_fields, participant_of}
use mchat.Backend.Redis.Client.{RedisClient, IsRedis, find, or_empty}
use mchat.Backend.Redis.Keys.{over, found_nonempty}
use mchat.Backend.Redis.Effects.{register_participant-Effect}
use mchat.Backend.Redis.Sound.{IsSound, register_participant-IsSound, read_all_total}

checksum_nonempty : (rt : Runtime) (s : Bytes) → is_empty (sha256_checksum rt s) ≡ false
checksum_nonempty rt s =
    let valid = sha256_checksum-validate rt s in
    nonempty (sha256_checksum rt s)
      ((validate_password_sha256_iff (sha256_checksum rt s)).0 valid).0
  where
    nonempty : (t : Bytes) → length t ≡ 64 → is_empty t ≡ false
    nonempty [] h = absurd (omega (arith, h))
    nonempty (x ∷ t) h = refl

module _ (c : RedisClient) (rt : Runtime) (r : IsRedis c) where
  -- The hash of a member of the set of names is not missing.
  pub participants_present :
      (d : c.Db)
      → IsSound c rt d
      → (u : Bytes) → Mem u (c.s_members d participants_key)
      → is_empty (c.h_get_all d (sha256_checksum rt u)) ≡ false
  participants_present d v u m =
      found_nonempty (c.h_get_all d (sha256_checksum rt u)) (codes "Username")
        (v.participant_stored u ((r.mem-members d participants_key u).0 m))

  module _ (d d' : c.Db) (v : IsSound c rt d) (p : Participant)
      (h : register_participant c rt d p ≡ some d') where
    field_after :
        (f value : Bytes)
        → ((old : Option Bytes)
            → over c (participant_fields p (sha256_checksum rt p.password)) f old ≡ some value)
        → find c d' (sha256_checksum rt p.username) f ≡ some value
    field_after f value writes =
        let (free, e) = register_participant-Effect c rt r d v.keyed d' p h in
        let key = sha256_checksum rt p.username in
        e.finds key f ∙ (rw (equal_refl key) (writes (find c d key f)))

    read_back :
        participant_of (c.h_get_all d' (sha256_checksum rt p.username))
        ≡ record p { password = sha256_checksum rt p.password }
    unfolding participant_of equal
    read_back =
        rw
          (
            field_after (codes "Username") p.username (λ old. refl),
            field_after (codes "Password") (sha256_checksum rt p.password) (λ old. refl),
            field_after (codes "Email") p.email (λ old. refl),
            field_after (codes "JoinTime") p.join_time (λ old. refl),
          )
          refl

    is_registered : c.s_is_member d' participants_key p.username ≡ true
    is_registered =
        let (free, e) = register_participant-Effect c rt r d v.keyed d' p h in
        e.members participants_key p.username
        ∙ (rw (equal_refl participants_key, equal_refl p.username) refl)

    stored_checksum :
        c.h_get d' (sha256_checksum rt p.username) (codes "Password")
        ≡ sha256_checksum rt p.password
    unfolding equal
    stored_checksum =
        r.get_lem d' (sha256_checksum rt p.username) (codes "Password")
        ∙ ap or_empty (field_after (codes "Password") (sha256_checksum rt p.password) (λ old. refl))

    -- A participant that was registered is read back as it was, with the checksum of its password
    -- for the password: the list of the participants is there and holds it.
    pub get_participants-register :
        (ps : List Participant) × (get_participants c rt d' ≡ some ps)
        × Mem (record p { password = sha256_checksum rt p.password }) ps
    unfolding get_participants
    get_participants-register =
        let sound = register_participant-IsSound c rt r d d' v p h in
        let hash_at = λ (u : Bytes). c.h_get_all d' (sha256_checksum rt u) in
        let (ps, reads, all_in) =
          read_all_total participant_of hash_at (c.s_members d' participants_key)
            (participants_present d' sound) in
        (
          ps,
          reads,
          subst (λ x. Mem x ps) read_back
              (all_in p.username ((r.mem-members d' participants_key p.username).1 is_registered)),
        )

    -- After a registration a log in under the same name succeeds exactly with a password of the
    -- same digest.
    pub redis_auth_participant-register :
        (q : Participant)
        → q.username ≡ p.username
        → (auth_participant c rt d' q ≡ true) ↔ (rt.sum256 q.password ≡ rt.sum256 p.password)
    unfolding auth_participant
    redis_auth_participant-register q same =
        rw (same, stored_checksum, checksum_nonempty rt p.password, is_registered)
          (sha256_checksum-equal_fold rt q.password p.password)
