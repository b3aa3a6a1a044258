-- ===== src/Backend/Contract.antt =====
-- What the server relies on of a storage: the panics are exactly those that the server guards
-- against, and the queries see what the updates wrote.
use mathlib.Core.Option
use mathlib.Core.List.{Mem}
use mchat.Base.{
  ℕ, ◌↔◌, ◌≡◌, ◌≢◌, ◌⊎◌, Bool, true, false, not, ◌&&◌, ◌||◌, List, [], ◌∷◌, ◌++◌, none, some, Bytes,
  equal, if◌then◌else◌,
}
use mchat.Types.{Participant, ChatMessage, Channel}
use mchat.Backend.Defs.{Backend, ChannelRef, stored}

-- A name is registered by its own registration and by no other step, and stays so.
pub record KeepsNames (b : Backend) : Type 0 where
  pub has-register :
      (s s' : b.Store) (p : Participant) (u : Bytes)
      → b.register_participant s p ≡ some s'
      → b.has_participant s' u ≡ (equal p.username u || b.has_participant s u)
  pub has-store :
      (s s' : b.Store) (m : ChatMessage) (u : Bytes)
      → b.store_message s m ≡ some s'
      → b.has_participant s' u ≡ b.has_participant s u
  pub has-register_channel :
      (s s' : b.Store) (c : Channel) (u : Bytes)
      → b.register_channel s c ≡ some s'
      → b.has_participant s' u ≡ b.has_participant s u
  pub has-save :
      (s : b.Store) (k : Bytes) (c : Channel) (u : Bytes)
      → b.has_participant (b.save s k c) u ≡ b.has_participant s u

-- The general history grows by the messages that are stored there, and by nothing else.
pub record KeepsHistory (b : Backend) : Type 0 where
  pub general-store :
      (s s' : b.Store) (m : ChatMessage)
      → m.channel ≡ []
      → b.store_message s m ≡ some s'
      → b.get_chat_history s' ([] ∷ [])
        ≡ Option.map (λ h. h ++ (m ∷ [])) (b.get_chat_history s ([] ∷ []))
  pub general-register :
      (s s' : b.Store) (p : Participant)
      → b.register_participant s p ≡ some s'
      → b.get_chat_history s' ([] ∷ []) ≡ b.get_chat_history s ([] ∷ [])
  pub general-register_channel :
      (s s' : b.Store) (c : Channel)
      → b.register_channel s c ≡ some s'
      → b.get_chat_history s' ([] ∷ []) ≡ b.get_chat_history s ([] ∷ [])
  pub general-save :
      (s : b.Store) (k : Bytes) (c : Channel)
      → b.get_chat_history (b.save s k c) ([] ∷ []) ≡ b.get_chat_history s ([] ∷ [])

pub record IsBackend (b : Backend) : Type 0 where
  -- a name can be registered exactly once
  pub register_fresh :
      (s : b.Store) (p : Participant)
      → b.has_participant s p.username ≡ false
      → (s' : b.Store) × (b.register_participant s p ≡ some s')
  pub register_taken :
      (s : b.Store) (p : Participant)
      → b.has_participant s p.username ≡ true
      → b.register_participant s p ≡ none
  pub keeps_names : KeepsNames b
  pub channel_fresh :
      (s : b.Store) (c : Channel)
      → b.has_channel s c.name ≡ false
      → (s' : b.Store) × (b.register_channel s c ≡ some s')
  pub channel_taken :
      (s : b.Store) (c : Channel) → b.has_channel s c.name ≡ true → b.register_channel s c ≡ none
  pub has_channel-register :
      (s s' : b.Store) (c : Channel) (n : Bytes)
      → b.register_channel s c ≡ some s'
      → b.has_channel s' n ≡ (equal c.name n || b.has_channel s n)
  -- no name and the empty name both ask for the general chat, which is always there
  pub general_history :
      (s : b.Store)
      → (h : List ChatMessage) × (b.get_chat_history s [] ≡ some h)
        × (b.get_chat_history s ([] ∷ []) ≡ some h)
  pub channel_history :
      (s : b.Store) (n : Bytes)
      → b.has_channel s n ≡ true
      → (h : List ChatMessage) × (b.get_chat_history s (n ∷ []) ≡ some h)
  pub store_total :
      (s : b.Store) (m : ChatMessage)
      → (m.channel ≡ []) ⊎ (b.has_channel s m.channel ≡ true)
      → (s' : b.Store) × (b.store_message s m ≡ some s')
  pub store_missing :
      (s : b.Store) (m : ChatMessage)
      → m.channel ≢ []
      → b.has_channel s m.channel ≡ false
      → b.store_message s m ≡ none
  -- a stored message is the last of its own history, and of no other
  pub history-store :
      (s s' : b.Store) (m : ChatMessage) (n : Bytes)
      → b.store_message s m ≡ some s'
      → b.get_chat_history s' (n ∷ []) ≡ (
          if equal m.channel n
          then Option.map (λ h. h ++ (m ∷ [])) (b.get_chat_history s (n ∷ []))
          else b.get_chat_history s (n ∷ []))
  -- an existing channel can be deleted and is gone then, and a missing one cannot be deleted
  pub delete_present :
      (s : b.Store) (n : Bytes)
      → b.has_channel s n ≡ true
      → (s' : b.Store) × (b.delete_channel s n ≡ some (s', true))
  pub has_channel-delete :
      (s s' : b.Store) (n k : Bytes) (r : Bool)
      → b.delete_channel s n ≡ some (s', r)
      → (r ≡ true) × (b.has_channel s' k ≡ (not (equal n k) && b.has_channel s k))
  pub delete_missing :
      (s : b.Store) (n : Bytes) → b.has_channel s n ≡ false → b.delete_channel s n ≡ none
  -- a missing channel has no history to return
  pub history_missing :
      (s : b.Store) (n : Bytes)
      → n ≢ []
      → b.has_channel s n ≡ false
      → b.get_chat_history s (n ∷ []) ≡ none
  -- the list of the channels has the pointers to the existing ones
  pub channels_listed :
      (n : ℕ) (s : b.Store)
      → (l : List ChannelRef) × (b.get_channels n s ≡ some l)
        × ((k : Bytes) → Mem (stored k) l ↔ (b.has_channel s k ≡ true))
  -- the list of the participants can be read, and has one that was just registered
  pub participants_listed :
      (n : ℕ) (s : b.Store) → (l : List Participant) × (b.get_participants n s ≡ some l)
  pub participants-register :
      (n : ℕ) (s s' : b.Store) (p : Participant)
      → b.register_participant s p ≡ some s'
      → (l : List Participant) × (q : Participant) × (b.get_participants n s' ≡ some l)
        × Mem q l
        × (q.username ≡ p.username)
        × (q.email ≡ p.email)
        × (q.join_time ≡ p.join_time)
  -- nobody logs in under a name that is not registered
  pub auth_missing :
      (s : b.Store) (p : Participant)
      → b.has_participant s p.username ≡ false
      → b.auth_participant s p ≡ false
