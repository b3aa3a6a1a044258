-- ===== src/Backend/Memory/Laws.antt =====
-- The memory storage keeps the contract of the interface.
use mathlib.Core.Option
use mathlib.Core.Logic.{∥∥₁_elim}
use mathlib.Core.List.{Mem, Mem-prop, mem-map, mem-map_of_mem}
use mathlib.Core.List.Perm
use mchat.Base.{
  ℕ, ◌↔◌, ap, subst, List, map, false, ◌≡◌, ◌≢◌, refl, ◌⊎◌, inl, inr, Bool, true, not, ◌&&◌, ◌||◌,
  [], ◌∷◌, ◌++◌, none, some, arith, Bytes, equal, equal_iff, equal_refl, if◌then◌else◌, Bool-cases,
  some_of_ne_none, Option-cases,
}
use mchat.Dict.{lookup, insert, has, delete, keys, values}
use mchat.Dict.Laws.{lookup-insert, lookup-delete, mem-keys}
use mchat.Dict.Values.{mem-values}
use mchat.Runtime.{Runtime}
use mchat.Types.{Participant, ChatMessage, Channel}
use mchat.Util.{sha256_checksum}
use mchat.Util.Checksum.{sha256_checksum-validate}
use mchat.Backend.Defs.{ChannelRef, own, stored}
use mchat.Backend.Contract.{KeepsNames, KeepsHistory, IsBackend}
use mchat.Backend.Memory.{
  MemoryStore, has_participant, has_channel, store_message, register_channel, delete_channel,
  get_chat_history, register_participant, memory_backend, save, get_channels, get_participants,
  auth_participant,
}

module _ (rt : Runtime) where
  pub memory-register :
      (m : MemoryStore) (p : Participant)
      → register_participant rt m p ≡ (
          if has m.participants p.username
          then none
          else some (record m {
            participants =
                insert m.participants p.username
                  (record p { password = sha256_checksum rt p.password });
          }))
  unfolding register_participant
  memory-register m p = rw (sha256_checksum-validate rt p.password)

  memory-has-register :
      (m m' : MemoryStore) (p : Participant) (u : Bytes)
      → register_participant rt m p ≡ some m'
      → has_participant m' u ≡ (equal p.username u || has_participant m u)
  unfolding has_participant
  memory-has-register m m' p u h = ground (
    arith,
    memory-register m p,
    lookup-insert m.participants p.username u
        (record p { password = sha256_checksum rt p.password }),
  )

memory-has_channel-register :
    (m m' : MemoryStore) (c : Channel) (n : Bytes)
    → register_channel m c ≡ some m'
    → has_channel m' n ≡ (equal c.name n || has_channel m n)
unfolding has_channel register_channel
memory-has_channel-register m m' c n h =
    ground (arith, lookup-insert m.channels c.name n (record c { chat_history = []; members = [] }))

memory-has_channel-delete :
    (m m' : MemoryStore) (n k : Bytes) (r : Bool)
    → delete_channel m n ≡ some (m', r)
    → (r ≡ true) × (has_channel m' k ≡ (not (equal n k) && has_channel m k))
unfolding has_channel delete_channel
memory-has_channel-delete m m' n k r h = ground (arith, lookup-delete m.channels n k)

memory-store_total :
    (m : MemoryStore) (msg : ChatMessage)
    → (msg.channel ≡ []) ⊎ (has_channel m msg.channel ≡ true)
    → (m' : MemoryStore) × (store_message m msg ≡ some m')
unfolding has_channel store_message
memory-store_total m msg h =
    some_of_ne_none (store_message m msg) (λ e. ground (arith, equal_iff msg.channel []))

-- Where a stored message went.
pub store_message-cases :
    (m m' : MemoryStore) (msg : ChatMessage)
    → store_message m msg ≡ some m'
    → ((msg.channel ≡ []) × (m' ≡ record m { chat_history = m.chat_history ++ (msg ∷ []) }))
      ⊎ ((c : Channel) × (msg.channel ≢ [])
          × (lookup m.channels msg.channel ≡ some c)
          × (m' ≡ record m {
            channels =
                insert m.channels msg.channel
                  (record c { chat_history = c.chat_history ++ (msg ∷ []) });
          }))
unfolding store_message
store_message-cases m m' msg h = elim (Option-cases (lookup m.channels msg.channel)) [
  | inl missing ↦ inl (ground arith, ground arith)
  | inr (c, found) ↦ elim (Bool-cases (equal msg.channel [])) [
    | inl general ↦ let e = (equal_iff msg.channel []).0 general in inl (e, ground arith)
    | inr special ↦
        let ne : msg.channel ≢ [] = (λ e. ground (arith, equal_iff msg.channel [])) in
        inr (c, ne, found, ground arith)
  ]
]

memory-history-store :
    (m m' : MemoryStore) (msg : ChatMessage) (n : Bytes)
    → store_message m msg ≡ some m'
    → get_chat_history m' (n ∷ []) ≡ (
        if equal msg.channel n
        then Option.map (λ h. h ++ (msg ∷ [])) (get_chat_history m (n ∷ []))
        else get_chat_history m (n ∷ []))
unfolding get_chat_history
memory-history-store m m' msg n h = elim (store_message-cases m m' msg h) [
  | inl (general, e) ↦ rw e (ground (arith, equal_iff msg.channel n, equal_iff n []))
  | inr (c, special, found, e) ↦
      let after = record c { chat_history = c.chat_history ++ (msg ∷ []) } in
      rw e (
        ground (
          arith,
          equal_iff msg.channel n,
          equal_iff n [],
          lookup-insert m.channels msg.channel n after,
        ))
]

pub memory_backend-KeepsNames : (rt : Runtime) → KeepsNames (memory_backend rt)
unfolding has_participant register_channel
memory_backend-KeepsNames rt = record {
  has-register = memory-has-register rt;
  has-store = λ s s' m u h. elim (store_message-cases s s' m h) [
    | inl (general, e) ↦ rw e refl
    | inr (c, special, found, e) ↦ rw e refl
  ];
  has-register_channel = λ s s' c u h. ground arith;
  has-save = λ s k c u. unfold save in refl;
}

pub memory_backend-KeepsHistory : (rt : Runtime) → KeepsHistory (memory_backend rt)
unfolding get_chat_history register_channel
memory_backend-KeepsHistory rt = record {
  general-store =
      λ s s' m e h. ground (arith, memory-history-store s s' m [] h, equal_iff m.channel []);
  general-register = λ s s' p h. ground (arith, memory-register rt s p, equal_refl []);
  general-register_channel = λ s s' c h. ground (arith, equal_refl []);
  general-save = λ s k c. unfold save in ground (arith, equal_refl []);
}

memory-store_missing :
    (m : MemoryStore) (msg : ChatMessage)
    → msg.channel ≢ []
    → has_channel m msg.channel ≡ false
    → store_message m msg ≡ none
unfolding has_channel store_message
memory-store_missing m msg ne h = ground (arith, equal_iff msg.channel [])

name_of : ChannelRef → Bytes
name_of (stored k) = k
name_of (own c) = c.name

mem-stored : (k : Bytes) (l : List Bytes) → Mem (stored k) (map stored l) → Mem k l
unfolding name_of
mem-stored k l h = ∥∥₁_elim (mem-map.0 h) Mem-prop (λ t. subst (λ x. Mem x l) (ap name_of t.2) t.1)

module _ (rt : Runtime) (n : ℕ) (m : MemoryStore) where
  memory-channels_listed :
      (l : List ChannelRef) × (some (get_channels rt n m) ≡ some l)
      × ((k : Bytes) → Mem (stored k) l ↔ (has_channel m k ≡ true))
  unfolding get_channels has_channel
  memory-channels_listed =
      let p = rt.arrange_perm Bytes n (keys m.channels) in
      (
        get_channels rt n m,
        refl,
        λ k. (
          λ h. (mem-keys m.channels k).0 ((Perm.mem_iff p).0 (mem-stored k _ h)),
          λ h. mem-map_of_mem stored ((Perm.mem_iff p).1 ((mem-keys m.channels k).1 h)),
        ),
      )

  memory-participants-register :
      (m' : MemoryStore) (p : Participant)
      → register_participant rt m p ≡ some m'
      → (l : List Participant) × (q : Participant) × (some (get_participants rt n m') ≡ some l)
        × Mem q l
        × (q.username ≡ p.username)
        × (q.email ≡ p.email)
        × (q.join_time ≡ p.join_time)
  unfolding get_participants
  memory-participants-register m' p h =
      let q = record p { password = sha256_checksum rt p.password } in
      let found : lookup m'.participants p.username ≡ some q = ground (
        arith,
        memory-register rt m p,
        lookup-insert m.participants p.username p.username q,
        equal_refl p.username,
      ) in
      let order = rt.arrange_perm Participant n (values m'.participants) in
      (
        get_participants rt n m',
        q,
        refl,
        (Perm.mem_iff order).1 (mem-values m'.participants p.username q found),
        refl,
        refl,
        refl,
      )

pub memory_backend-IsBackend : (rt : Runtime) → IsBackend (memory_backend rt)
unfolding has_participant has_channel register_channel delete_channel get_chat_history
memory_backend-IsBackend rt = record {
  register_fresh = λ s p h.
      some_of_ne_none (register_participant rt s p) (λ e. ground (arith, memory-register rt s p));
  register_taken = λ s p h. ground (arith, memory-register rt s p);
  keeps_names = memory_backend-KeepsNames rt;
  channel_fresh = λ s c h. some_of_ne_none (register_channel s c) (λ e. ground arith);
  channel_taken = λ s c h. ground arith;
  has_channel-register = memory-has_channel-register;
  general_history = λ s. (s.chat_history, refl, unfold equal in refl);
  channel_history = λ s n h. some_of_ne_none (get_chat_history s (n ∷ [])) (λ e. ground arith);
  store_total = memory-store_total;
  history-store = memory-history-store;
  has_channel-delete = memory-has_channel-delete;
  delete_missing = λ s n h. ground arith;
  history_missing = λ s n ne h. ground (arith, equal_iff n []);
  delete_present = λ s n h.
      let (r, e) = some_of_ne_none (delete_channel s n) (λ e. ground arith) in
      (record s { channels = delete s.channels n }, ground (arith, h));
  store_missing = memory-store_missing;
  channels_listed = memory-channels_listed rt;
  participants_listed = λ n s. (get_participants rt n s, refl);
  participants-register = λ n s. memory-participants-register rt n s;
  auth_missing = λ s p h. unfold auth_participant in ground (arith, h);
}
