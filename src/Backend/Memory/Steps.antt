-- ===== src/Backend/Memory/Steps.antt =====
-- The memory storage over any sequence of calls.
use mchat.Base.{◌≡◌, inl, inr, Bool, Bool-cases, [], some, arith, Bytes, equal, equal_iff}
use mchat.Dict.{lookup, insert, delete}
use mchat.Dict.Laws.{lookup-insert, Unique, Unique-insert, Unique-delete}
use mchat.Runtime.{Runtime}
use mchat.Types.{Participant, ChatMessage, Channel}
use mchat.Util.{sha256_checksum}
use mchat.Backend.Memory.{
  MemoryStore, new_memory_backend, register_participant, store_message, register_channel,
  delete_channel, save,
}
use mchat.Backend.Memory.Laws.{memory-register, store_message-cases}

-- The calls that change the storage, and a write through a pointer that it handed out.
pub data Step (rt : Runtime) (m m' : MemoryStore) : Type 0 where
  registers : (p : Participant) → register_participant rt m p ≡ some m' → Step rt m m'
  stores : (msg : ChatMessage) → store_message m msg ≡ some m' → Step rt m m'
  registers_channel : (c : Channel) → register_channel m c ≡ some m' → Step rt m m'
  deletes : (n : Bytes) (r : Bool) → delete_channel m n ≡ some (m', r) → Step rt m m'
  saves : (k : Bytes) (c : Channel) → m' ≡ save m k c → Step rt m m'

-- What the calls reach from a new storage.
pub data Reach (rt : Runtime) : MemoryStore → Type 0 where
  fresh : Reach rt new_memory_backend
  next : {m m' : MemoryStore} → Reach rt m → Step rt m m' → Reach rt m'

-- Each key stands once; a participant stands under its name, with the checksum of some text for its
-- password.
pub record IsWellFormed (rt : Runtime) (m : MemoryStore) : Type 0 where
  pub participants_unique : Unique m.participants
  pub channels_unique : Unique m.channels
  pub named : (u : Bytes) (p : Participant) → lookup m.participants u ≡ some p → p.username ≡ u
  pub hashed :
      (u : Bytes) (p : Participant)
      → lookup m.participants u ≡ some p
      → (typed : Bytes) × (p.password ≡ sha256_checksum rt typed)

new-IsWellFormed : (rt : Runtime) → IsWellFormed rt new_memory_backend
unfolding lookup
new-IsWellFormed rt = record {
  participants_unique = tt;
  channels_unique = tt;
  named = λ u p h. cc;
  hashed = λ u p h. cc;
}

-- Where the participants stay, the channels decide.
same_participants :
    {rt : Runtime} {m m' : MemoryStore}
    → IsWellFormed rt m
    → m'.participants ≡ m.participants
    → Unique m'.channels
    → IsWellFormed rt m'
same_participants w e u = record {
  participants_unique = rw e w.participants_unique;
  channels_unique = u;
  named = rw e w.named;
  hashed = rw e w.hashed;
}

registers-IsWellFormed :
    (rt : Runtime) (m m' : MemoryStore) (p : Participant)
    → IsWellFormed rt m
    → register_participant rt m p ≡ some m'
    → IsWellFormed rt m'
registers-IsWellFormed rt m m' p w h =
    let stored = record p { password = sha256_checksum rt p.password } in
    let written : m'.participants ≡ insert m.participants p.username stored =
      ground (arith, memory-register rt m p) in
    let kept : m'.channels ≡ m.channels = ground (arith, memory-register rt m p) in
    let at = lookup-insert m.participants p.username in
    record {
      participants_unique =
          rw written (Unique-insert m.participants p.username stored w.participants_unique);
      channels_unique = rw kept w.channels_unique;
      named = λ u q e. ground (arith, written, at u stored, equal_iff p.username u, w.named u q);
      hashed = λ u q e. elim (Bool-cases (equal p.username u)) [
        | inl same ↦ (p.password, ground (arith, written, at u stored, same))
        | inr other ↦ w.hashed u q (ground (arith, written, at u stored, other))
      ];
    }

Step-IsWellFormed :
    {rt : Runtime} {m m' : MemoryStore} → Step rt m m' → IsWellFormed rt m → IsWellFormed rt m'
unfolding register_channel delete_channel save
Step-IsWellFormed {rt} {m} {m'} (registers p h) w = registers-IsWellFormed rt m m' p w h
Step-IsWellFormed {rt} {m} {m'} (stores msg h) w = elim (store_message-cases m m' msg h) [
  | inl (general, e) ↦ same_participants w (ground arith) (rw e w.channels_unique)
  | inr (c, special, found, e) ↦
      same_participants w (ground arith) (rw e (Unique-insert m.channels _ _ w.channels_unique))
]
Step-IsWellFormed {rt} {m} {m'} (registers_channel c h) w =
    let written : m'.channels
        ≡ insert m.channels c.name (record c { chat_history = []; members = [] }) =
      ground arith in
    same_participants w (ground arith)
      (rw written (Unique-insert m.channels c.name _ w.channels_unique))
Step-IsWellFormed {rt} {m} {m'} (deletes n r h) w =
    let written : m'.channels ≡ delete m.channels n = ground arith in
    same_participants w (ground arith) (rw written (Unique-delete m.channels n w.channels_unique))
Step-IsWellFormed {rt} {m} {m'} (saves k c e) w =
    same_participants w (ground arith) (rw e (Unique-insert m.channels k c w.channels_unique))

-- After any calls no key stands twice in the lists of pairs that stand for the maps, and every stored
-- participant stands under its own name, with the checksum of some text for its password.
pub Reach-IsWellFormed : {rt : Runtime} {m : MemoryStore} → Reach rt m → IsWellFormed rt m
Reach-IsWellFormed fresh = new-IsWellFormed _
Reach-IsWellFormed (next r s) = Step-IsWellFormed s (Reach-IsWellFormed r)
