-- ===== src/Session/Reader/Panics/Handlers.antt =====
-- The handlers of the reader's states: which of them may panic.
use mchat.Base.{
  ◌≡◌, ap, ◌∙◌, Option-cases, ◌≢◌, ==_refl, none, refl, Bool-cases, inl, inr, false, List, [], ◌∷◌,
  some, arith, Bytes,
}
use mchat.Runtime.{Runtime}
use mchat.Text.Atoi.{ℤ, atoi, NumError, success, err_syntax, err_range}
use mchat.Commands.{parse_command}
use mchat.Types.{Channel, build_chat_msg}
use mchat.Backend.Defs.{Backend, ChannelRef, own, stored}
use mchat.Backend.Contract.{KeepsNames}
use mchat.Session.Reader.Invariant.{Inv}
use mchat.Session.Reader.Steps.{set_password-Inv}
use mchat.Session.State.{
  ReaderState, ReaderSubstate, state_null, state_joining, state_registration, state_authentication,
  state_accepting_messages, state_creating_channel, state_selecting_channel, state_processing_menu,
  state_disconnecting, substate_null, substate_reading_name, substate_reading_password,
  substate_reading_email_address, substate_reading_channel_desc, Thread, panics, done,
}
use mchat.Session.Actions.{conn_of, write_channel, channel_of, with_conn, tick}
use mchat.Session.Submission.{
  register_step, auth_step, channel_step, set_password, set_channel_desc, current_channel,
  on_register_participant_state, on_auth_participant_state, on_create_channel_state,
}
use mchat.Session.Chat.{
  pick, show_channel, choose_channel, select_channel, on_select_channel_state,
  on_accept_messages_state,
}
use mchat.Session.Input.{run_parsed, process_command}
use mchat.Session.Loop.{transition}
use mchat.Session.Reader.Panics.{Serves, joining_safe, validate_safe, validate_created_safe}

module _ {b : Backend} (t : Thread b) where
  abbrev pub IsMissing : Bytes → Type 0
  IsMissing n = (n ≢ []) × (b.has_channel t.storage n ≡ false)

  -- The line selects a channel of the list, which is there under another name than its own.
  pub record SelectsMissing : Type 0 where
    pub is_selecting : t.state ≡ state_selecting_channel
    pub is_parsed : (parse_command t.buffer).error ≡ none
    pub is_unmatched : (parse_command t.buffer).is_matched ≡ false
    pub is_number : (atoi t.buffer).1 ≡ success
    pub channels : List ChannelRef
    pub ref : ChannelRef
    pub is_listed : b.get_channels t.readings t.storage ≡ some channels
    pub is_picked : pick channels (atoi t.buffer).0 ≡ some ref
    pub is_missing : IsMissing (channel_of t ref).name

module _ (rt : Runtime) {b : Backend} (k : KeepsNames b) (c : Serves b) where
  write_channel_state :
      (t : Thread b) (ch : Channel) (ref : ChannelRef) → (write_channel t ch ref).reader ≡ t.reader
  unfolding write_channel
  write_channel_state t ch (own d) = refl
  write_channel_state t ch (stored key) = refl

  register_step_safe :
      (sub : ReaderSubstate) (t : Thread b)
      → t.state ≡ state_registration
      → Inv t
      → register_step rt sub t ≢ panics
  unfolding register_step
  register_step_safe substate_reading_name t e v h = ground arith
  register_step_safe substate_reading_email_address t e v h = ground arith
  register_step_safe substate_reading_password t e v h =
      validate_safe rt k c (set_password t) (inl e) (set_password-Inv t v) h
  register_step_safe substate_null t e v h = ground arith
  register_step_safe substate_reading_channel_desc t e v h = ground arith

  auth_step_safe :
      (sub : ReaderSubstate) (t : Thread b)
      → t.state ≡ state_authentication
      → Inv t
      → auth_step rt sub t ≢ panics
  unfolding auth_step
  auth_step_safe substate_reading_name t e v h = ground arith
  auth_step_safe substate_reading_email_address t e v h = ground arith
  auth_step_safe substate_reading_password t e v h =
      validate_safe rt k c (set_password t) (inr e) (set_password-Inv t v) h
  auth_step_safe substate_null t e v h = ground arith
  auth_step_safe substate_reading_channel_desc t e v h = ground arith

  channel_step_safe :
      (sub : ReaderSubstate) (t : Thread b)
      → t.state ≡ state_creating_channel
      → channel_step rt sub t ≢ panics
  unfolding channel_step
  channel_step_safe substate_reading_name t e h = ground arith
  channel_step_safe substate_reading_channel_desc t e h =
      let same =
        write_channel_state t (record (current_channel t) { desc = t.buffer })
          (conn_of t).channel in
      validate_created_safe rt k c (set_channel_desc t) (ap (λ r. r.state) same ∙ e) h
  channel_step_safe substate_reading_email_address t e h = ground arith
  channel_step_safe substate_reading_password t e h = ground arith
  channel_step_safe substate_null t e h = ground arith

  accept_safe :
      (t : Thread b) → t.state ≡ state_accepting_messages → on_accept_messages_state rt t ≢ panics
  unfolding on_accept_messages_state
  accept_safe t e h =
      let msg =
        build_chat_msg t.buffer (conn_of t).participant.username ((current_channel t).name ∷ [])
          (rt.time_now_str t.readings) in
      ground (arith, c.can_store t.storage msg (unfold build_chat_msg in refl))

  show_channel_cases :
      (t : Thread b) → show_channel rt t ≡ panics → IsMissing t (current_channel t).name
  unfolding show_channel
  show_channel_cases t h = (
    λ e. ground (arith, c.history_there t.storage (current_channel t).name (inl e)),
    elim (Bool-cases (b.has_channel t.storage (current_channel t).name)) [
      | inl has ↦
          absurd (ground (arith, c.history_there t.storage (current_channel t).name (inr has)))
      | inr missing ↦ missing
    ],
  )

  select_channel_cases :
      (t : Thread b) (id : ℤ × NumError)
      → select_channel rt t id ≡ panics
      → (channels : List ChannelRef) × (ref : ChannelRef) × (b.get_channels t.readings t.storage
          ≡ some channels)
        × (id.1 ≡ success)
        × (pick channels id.0 ≡ some ref)
        × IsMissing t (channel_of t ref).name
  unfolding select_channel choose_channel
  select_channel_cases t (id, err_syntax) h = ground arith
  select_channel_cases t (id, err_range) h = ground arith
  select_channel_cases t (id, success) h =
      elim (Option-cases (b.get_channels t.readings t.storage)) [
        | inl gone ↦ absurd (c.channels_there t.readings t.storage gone)
        | inr (channels, listed) ↦ elim (Option-cases (pick channels id)) [
          | inl nothing ↦ ground (arith, h, listed, nothing)
          | inr (ref, picked) ↦
              let chosen = with_conn (tick t) (record (conn_of t) { channel = ref }) in
              let missing = show_channel_cases chosen (ground (arith, h, listed, picked)) in
              (channels, ref, listed, refl, picked, rw (==_refl t.conn) at missing)
        ]
      ]

  pub transition_cases :
      (s : ReaderState) (t : Thread b)
      → t.state ≡ s
      → Inv t
      → process_command rt t ≡ done (t, false)
      → transition rt s t ≡ panics
      → SelectsMissing t
  unfolding transition on_register_participant_state on_auth_participant_state
      on_create_channel_state on_select_channel_state process_command run_parsed
  transition_cases state_joining t e v free h = absurd (joining_safe rt k c t (inl e) h)
  transition_cases state_processing_menu t e v free h = absurd (joining_safe rt k c t (inr e) h)
  transition_cases state_registration t e v free h =
      absurd (register_step_safe t.substate t e v (ground arith))
  transition_cases state_authentication t e v free h =
      absurd (auth_step_safe t.substate t e v (ground arith))
  transition_cases state_creating_channel t e v free h =
      absurd (channel_step_safe t.substate t e (ground arith))
  transition_cases state_selecting_channel t e v free h =
      let (channels, ref, listed, number, picked, missing) =
        select_channel_cases t (atoi t.buffer) (ground arith) in
      record {
        is_selecting = e;
        is_parsed = ground (arith, e, free);
        is_unmatched = ground (arith, e, free);
        is_number = number;
        channels = channels;
        ref = ref;
        is_listed = listed;
        is_picked = picked;
        is_missing = missing;
      }
  transition_cases state_accepting_messages t e v free h = absurd (accept_safe t e h)
  transition_cases state_disconnecting t e v free h = ground arith
  transition_cases state_null t e v free h = ground arith
