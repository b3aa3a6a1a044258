-- ===== src/Session/Reader/Panics.antt =====
-- Where a procedure of a reader may panic, over a storage that meets the contract.
pub mod Handlers
pub mod Commands
pub mod Rounds
use mchat.Base.{
  ◌≡◌, ◌≢◌, ◌⊎◌, ==_refl, ℕ, none, equal_refl, refl, Bool, Bool-cases, inl, inr, true, false, List,
  [], ◌∷◌, ◌++◌, some, Option, arith, Bytes, if◌then◌else◌,
}
use mchat.Runtime.{Runtime}
use mchat.Text.Atoi.{ℤ, atoi, NumError, success, err_syntax, err_range}
use mchat.Commands.{
  CommandType, command_null, command_display_menu, command_display_history, command_list_members,
  command_list_channels, command_list_commands, command_sentinel, parse_command,
}
use mchat.Validation.{validate_email}
use mchat.Types.{Participant, ChatMessage, Channel, build_chat_msg}
use mchat.Backend.Defs.{Backend, ChannelRef, own, stored}
use mchat.Backend.Contract.{KeepsNames, IsBackend}
use mchat.Dict.{lookup}
use mchat.Session.Reader.Invariant.{Inv, register_cases}
use mchat.Session.Reader.Steps.{set_password-Inv}
use mchat.Session.State.{
  ReaderState, ReaderSubstate, state_null, state_joining, state_registration, state_authentication,
  state_accepting_messages, state_creating_channel, state_selecting_channel, state_processing_menu,
  state_disconnecting, substate_null, substate_reading_name, substate_reading_password,
  substate_reading_email_address, substate_reading_channel_desc, Message, sys, chat, World, Thread,
  Outcome, panics, blocks, match_state, ◌>>=◌, is_connected, done, bind-eq-done,
}
use mchat.Session.Actions.{conn_of, write_channel, display_chat_history, channel_of}
use mchat.Session.Menu.{
  MenuOption, op_register, op_authenticate, op_create_channel, op_select_channel, op_list_members,
  op_display_chat, op_exit, no_option, choose, menu_option, report_option, on_joining_state,
}
use mchat.Session.Submission.{
  register_step, auth_step, channel_step, validate, validate_participant, validate_registration,
  validate_authentication, validate_channel, set_password, set_channel_desc, enter_chat, admit,
  mark_connected, register, current_channel, on_register_participant_state,
  on_auth_participant_state, on_create_channel_state,
}
use mchat.Session.Chat.{
  pick, show_channel, choose_channel, select_channel, on_select_channel_state,
  on_accept_messages_state, on_disconnect_state,
}
use mchat.Session.Input.{
  ReadEvent, read, show_history, show_members, show_channels, run_command, run_parsed,
  process_command,
}
use mchat.Session.Loop.{transition, offer_options, handle_line, finish_round, round}

-- Where the storage does not panic.
pub record Serves (b : Backend) : Type 0 where
  pub general_there : (s : b.Store) → b.get_chat_history s [] ≢ none
  pub history_there :
      (s : b.Store) (n : Bytes)
      → (n ≡ []) ⊎ (b.has_channel s n ≡ true)
      → b.get_chat_history s (n ∷ []) ≢ none
  pub history_missing :
      (s : b.Store) (n : Bytes)
      → n ≢ []
      → b.has_channel s n ≡ false
      → b.get_chat_history s (n ∷ []) ≡ none
  pub channels_there : (n : ℕ) (s : b.Store) → b.get_channels n s ≢ none
  pub participants_there : (n : ℕ) (s : b.Store) → b.get_participants n s ≢ none
  pub can_register :
      (s : b.Store) (p : Participant)
      → b.has_participant s p.username ≡ false
      → b.register_participant s p ≢ none
  pub can_register_channel :
      (s : b.Store) (c : Channel) → b.has_channel s c.name ≡ false → b.register_channel s c ≢ none
  pub can_store : (s : b.Store) (m : ChatMessage) → m.channel ≡ [] → b.store_message s m ≢ none

pub IsBackend-Serves : {b : Backend} → IsBackend b → Serves b
IsBackend-Serves k = record {
  general_there = λ s h. let (l, e, e') = k.general_history s in cc;
  history_there = λ s n h e. elim h [
    | inl general ↦ let (l, e1, e2) = k.general_history s in cc
    | inr has ↦ let (l, e1) = k.channel_history s n has in cc
  ];
  history_missing = k.history_missing;
  channels_there = λ n s e. let (l, e1, e2) = k.channels_listed n s in cc;
  participants_there = λ n s e. let (l, e1) = k.participants_listed n s in cc;
  can_register = λ s p free e. let (s', e1) = k.register_fresh s p free in cc;
  can_register_channel = λ s c free e. let (s', e1) = k.channel_fresh s c free in cc;
  can_store = λ s m general e. let (s', e1) = k.store_total s m (inl general) in cc;
}

pub bind-eq-panics {ℓ κ} :
    {A : Type ℓ} {B : Type κ} (m : Outcome A) (f : A → Outcome B)
    → (m >>= f) ≡ panics
    → (m ≡ panics) ⊎ ((a : A) × (m ≡ done a) × (f a ≡ panics))
bind-eq-panics (done a) f h = inr (a, refl, h)
bind-eq-panics panics f h = inl refl
bind-eq-panics blocks f h = ground arith

-- A line that is no command changes nothing before its handler.
pub process_command_same :
    (rt : Runtime) {b : Backend} (t t1 : Thread b)
    → process_command rt t ≡ done (t1, false)
    → t1 ≡ t
unfolding process_command run_parsed
process_command_same rt t t1 h = ground arith

module _ (rt : Runtime) {b : Backend} (k : KeepsNames b) (c : Serves b) where
  choose_safe : (o : MenuOption) (t : Thread b) → choose rt o t ≢ panics
  unfolding choose
  choose_safe op_register t h = ground arith
  choose_safe op_authenticate t h = ground arith
  choose_safe op_create_channel t h = ground arith
  choose_safe op_select_channel t h = ground (arith, c.channels_there t.readings t.storage)
  choose_safe op_list_members t h = ground (arith, c.participants_there t.readings t.storage)
  choose_safe op_exit t h = ground arith
  choose_safe op_display_chat t h = ground arith
  choose_safe no_option t h = ground arith

  pub joining_safe :
      (t : Thread b)
      → (t.state ≡ state_joining) ⊎ (t.state ≡ state_processing_menu)
      → on_joining_state rt t ≢ panics
  unfolding on_joining_state
  joining_safe t e h =
      let (op, err) = atoi t.buffer in
      ground (arith, e, choose_safe (menu_option op) (report_option rt err t))

  enter_chat_safe :
      (t : Thread b)
      → lookup t.connections (conn_of t).ip_addr ≡ some t.conn
      → enter_chat rt t ≢ panics
  unfolding enter_chat
  enter_chat_safe t m h = ground (arith, c.general_there t.storage, ==_refl t.conn)

  register_safe :
      (t : Thread b)
      → b.has_participant t.storage (conn_of t).participant.username ≡ false
      → register rt t ≢ panics
  unfolding register
  register_safe t free h =
      ground (arith, ==_refl t.conn, c.can_register t.storage (conn_of (admit rt t)).participant)

  entered_safe :
      (t : Thread b)
      → Inv t
      → b.has_participant t.storage (conn_of t).participant.username ≡ false
      → (register rt t >>= enter_chat rt) ≢ panics
  entered_safe t v free h = elim (bind-eq-panics (register rt t) (enter_chat rt) h) [
    | inl first ↦ register_safe t free first
    | inr (r, registered, second) ↦
        let cases = register_cases rt t r k registered in
        enter_chat_safe r (ground (arith, cases, v)) second
  ]

  validate_registration_safe : (t : Thread b) → Inv t → validate_registration rt t ≢ panics
  unfolding validate_registration
  validate_registration_safe t v h = ground (arith, entered_safe t v)

  validate_authentication_safe : (t : Thread b) → Inv t → validate_authentication rt t ≢ panics
  unfolding validate_authentication admit
  validate_authentication_safe t v h =
      ground (arith, enter_chat_safe (admit rt t), v.is_mapped, ==_refl t.conn)

  validate_channel_safe : (t : Thread b) → validate_channel rt t ≢ panics
  unfolding validate_channel
  validate_channel_safe t h = ground (arith, c.can_register_channel t.storage (current_channel t))

  pub validate_safe :
      (t : Thread b)
      → (t.state ≡ state_registration) ⊎ (t.state ≡ state_authentication)
      → Inv t
      → validate rt t ≢ panics
  unfolding validate validate_participant
  validate_safe t e v h =
      ground (arith, e, validate_registration_safe t v, validate_authentication_safe t v)

  pub validate_created_safe :
      (t : Thread b) → t.state ≡ state_creating_channel → validate rt t ≢ panics
  unfolding validate
  validate_created_safe t e h = ground (arith, e, validate_channel_safe t)
