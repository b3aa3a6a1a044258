-- ===== src/Backend/Memory/Accounts.antt =====
-- Passwords in the memory storage.
use mchat.Base.{◌≡◌, ◌↔◌, true, some, arith, equal_refl}
use mchat.Dict.{lookup}
use mchat.Dict.Laws.{lookup-insert}
use mchat.Runtime.{Runtime}
use mchat.Types.{Participant}
use mchat.Util.{sha256_checksum}
use mchat.Util.Checksum.{sha256_checksum-equal_fold}
use mchat.Backend.Memory.{MemoryStore, register_participant, auth_participant}
use mchat.Backend.Memory.Laws.{memory-register}

module _ (rt : Runtime) where
  -- After a registration, under the registered name and with any password, the authentication
  -- succeeds exactly if the digest of the password is also the digest of its own checksum's text.
  pub auth_participant-register :
      (m m' : MemoryStore) (p q : Participant)
      → register_participant rt m p ≡ some m'
      → q.username ≡ p.username
      → (auth_participant rt m' q ≡ true)
        ↔ (rt.sum256 p.password ≡ rt.sum256 (sha256_checksum rt p.password))
  unfolding auth_participant
  auth_participant-register m m' p q h e =
      rw (found, auth_participant)
        (sha256_checksum-equal_fold rt p.password (sha256_checksum rt p.password))
    where
      stored : Participant
      stored = record p { password = sha256_checksum rt p.password }

      found : lookup m'.participants q.username ≡ some stored
      found = ground (
        arith,
        memory-register rt m p,
        lookup-insert m.participants p.username q.username stored,
        equal_refl p.username,
      )
