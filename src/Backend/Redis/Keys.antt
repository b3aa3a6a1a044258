-- ===== src/Backend/Redis/Keys.antt =====
-- The keys of the database: those of sets end in a colon, those of hashes do not.
use mchat.Base.{
  ℕ, ◌≡◌, ◌≢◌, refl, Bool, true, false, not, ◌&&◌, List, [], ◌∷◌, ◌++◌, Option, none, some, arith,
  Bytes, codes, all, is_empty, equal, ==_iff, ◌∙◌, if◌then◌else◌,
}
use mchat.Runtime.{Runtime}
use mchat.Text.{ends_with}
use mchat.Dict.{Dict, lookup}
use mchat.Types.{ChatMessage}
use mchat.Util.{sha256_checksum}
use mchat.Util.Checksum.{sha256_checksum-validate}
use mchat.Validation.{hex_class}
use mchat.Validation.Credentials.{validate_password_sha256_iff}
use mchat.Backend.Redis.{set_fields}
use mchat.Backend.Redis.Fields.{
  participants_key, channels_key, general_key, messages_key, history_key, message_id,
}
use mchat.Backend.Redis.Client.{RedisClient, IsRedis, find}

abbrev pub is_set_key : Bytes → Bool
is_set_key k = ends_with k b':'

ends_with-append :
    (xs : Bytes) (y : ℕ) (ys : Bytes) (b : ℕ) → ends_with (xs ++ (y ∷ ys)) b ≡ ends_with (y ∷ ys) b
unfolding ends_with
ends_with-append [] y ys b = refl
ends_with-append (x ∷ []) y ys b = refl
ends_with-append (x ∷ z ∷ xs) y ys b = ends_with-append (z ∷ xs) y ys b

ends_with-all :
    (p : ℕ → Bool) (s : Bytes) (b : ℕ) → p b ≡ false → all p s ≡ true → ends_with s b ≡ false
unfolding ends_with
ends_with-all p [] b h a = refl
ends_with-all p (x ∷ []) b h a = ground (arith, ==_iff x b)
ends_with-all p (x ∷ y ∷ s) b h a = ground (arith, ends_with-all p (y ∷ s) b h)

pub sha256_checksum_key : (rt : Runtime) (s : Bytes) → is_set_key (sha256_checksum rt s) ≡ false
unfolding hex_class
sha256_checksum_key rt s =
    let valid = sha256_checksum-validate rt s in
    ends_with-all hex_class (sha256_checksum rt s) b':' refl
      ((validate_password_sha256_iff (sha256_checksum rt s)).0 valid).1

-- What the format of the time gives: some text that does not end in a colon.
abbrev pub is_time : Bytes → Bool
is_time now = not (is_empty now) && not (ends_with now b':')

pub message_id_key :
    (m : ChatMessage) (now : Bytes) → is_time now ≡ true → is_set_key (message_id m now) ≡ false
unfolding message_id ends_with
message_id_key m [] h = cc
message_id_key m (c ∷ now) h = ground (arith, ends_with-append m.sender b':' (c ∷ now) b':')

pub set_keys :
    (is_set_key participants_key ≡ true)
    × (is_set_key channels_key ≡ true)
    × (is_set_key general_key ≡ true)
unfolding ends_with
set_keys = (refl, refl, refl)

pub history_key_key : (channel : Bytes) → is_set_key (history_key channel) ≡ true
unfolding history_key messages_key
history_key_key [] = set_keys.2
history_key_key (c ∷ channel) =
    ends_with-append (codes "messages/" ++ (c ∷ channel)) b':' [] b':' ∙ (unfold ends_with in refl)

module _ (c : RedisClient) where
  pub record IsKeyed (d : c.Db) : Type 0 where
    pub no_hash : (k f : Bytes) → is_set_key k ≡ true → find c d k f ≡ none
    pub no_set : (k m : Bytes) → is_set_key k ≡ false → c.s_is_member d k m ≡ false

  -- The value of a field after a list of writes.
  abbrev pub over : List (Bytes × Bytes) → Bytes → Option Bytes → Option Bytes
  over [] f old = old
  over ((name, value) ∷ fields) f old = over fields f (if equal name f then some value else old)

  module _ (r : IsRedis c) where
    pub member-set_fields :
        (d : c.Db) (k : Bytes) (fields : List (Bytes × Bytes)) (k' m : Bytes)
        → c.s_is_member (set_fields c d k fields) k' m ≡ c.s_is_member d k' m
    unfolding set_fields
    member-set_fields d k [] k' m = refl
    member-set_fields d k ((name, value) ∷ fields) k' m =
        member-set_fields (c.h_set d k name value) k fields k' m ∙ r.member-set d k name value k' m

    pub find-set_fields :
        (d : c.Db) (k : Bytes) (fields : List (Bytes × Bytes)) (k' f : Bytes)
        → ((m : Bytes) → c.s_is_member d k m ≡ false)
        → find c (set_fields c d k fields) k' f
          ≡ (if equal k k' then over fields f (find c d k' f) else find c d k' f)
    unfolding set_fields
    find-set_fields d k [] k' f free = ground arith
    find-set_fields d k ((name, value) ∷ fields) k' f free =
        find-set_fields (c.h_set d k name value) k fields k' f
          (λ m. r.member-set d k name value k m ∙ free m)
        ∙ ground (arith, r.find-set d k name value k' f free)

pub lookup-nonempty :
    (d : Dict Bytes) (f : Bytes) {v : Bytes} → lookup d f ≡ some v → is_empty d ≡ false
unfolding lookup
lookup-nonempty [] f h = cc
lookup-nonempty (e ∷ d) f h = refl

pub found_nonempty : (d : Dict Bytes) (f : Bytes) → lookup d f ≢ none → is_empty d ≡ false
unfolding lookup
found_nonempty [] f h = absurd (h refl)
found_nonempty (e ∷ d) f h = refl
