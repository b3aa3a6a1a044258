-- ===== src/Session/Reader/Panics/Rounds.antt =====
-- What a line must be for a round of a connection's loop to panic.
use mchat.Base.{◌≡◌, ◌≢◌, ◌⊎◌, ==_refl, refl, Bool-cases, inl, inr, false, ◌↔◌, arith}
use mchat.Runtime.{Runtime}
use mchat.Commands.{parse_command}
use mchat.Backend.Defs.{Backend}
use mchat.Backend.Contract.{KeepsNames}
use mchat.Session.Reader.Invariant.{Inv}
use mchat.Session.State.{Thread, panics, done}
use mchat.Session.Actions.{channel_of}
use mchat.Session.Chat.{
  show_channel, choose_channel, select_channel, on_select_channel_state, on_disconnect_state,
}
use mchat.Session.Input.{ReadEvent, read, show_history, run_command, run_parsed, process_command}
use mchat.Session.Loop.{transition, offer_options, handle_line, finish_round, round}
use mchat.Session.ConnectionMap.{remove_conn}
use mchat.Session.Reader.Rounds.{offer_options-Inv, read-Inv, process_command-Inv, handle_line-Inv}
use mchat.Session.Reader.Panics.{Serves, bind-eq-panics, process_command_same}
use mchat.Session.Reader.Panics.Handlers.{SelectsMissing, transition_cases}
use mchat.Session.Reader.Panics.Commands.{AsksMissing, process_command_cases}

module _ (rt : Runtime) {b : Backend} (k : KeepsNames b) (c : Serves b) where
  handle_line_panics :
      (t : Thread b) → Inv t → handle_line rt t ≡ panics → AsksMissing t ⊎ SelectsMissing t
  unfolding handle_line
  handle_line_panics t v h = elim (bind-eq-panics (process_command rt t) _ h) [
    | inl first ↦ inl (process_command_cases rt k c t first)
    | inr ((t1, r), processed, rest) ↦ elim (Bool-cases r) [
      | inl command ↦ ground (arith, rest, command)
      | inr line ↦
          let v1 = process_command-Inv rt t t1 r v processed in
          let free : process_command rt t ≡ done (t1, false) = ground (arith, processed, line) in
          let stuck : transition rt t1.state t1 ≡ panics = ground (arith, rest, line) in
          let same = process_command_same rt t t1 free in
          inr (transition_cases rt k c t.state t refl v (rw same at free) (rw same at stuck))
    ]
  ]

  finish_round_safe : (t : Thread b) → Inv t → finish_round rt t ≢ panics
  unfolding finish_round on_disconnect_state remove_conn
  finish_round_safe t v h = ground (arith, v.is_mapped, ==_refl t.conn)

  asks_panics : (t : Thread b) → AsksMissing t → handle_line rt t ≡ panics
  unfolding handle_line process_command run_parsed run_command show_history
  asks_panics t a =
      let missing =
        c.history_missing t.storage (parse_command t.buffer).channel a.is_missing.0
          a.is_missing.1 in
      rw (a.is_no_menu, a.is_parsed, a.is_matched, a.is_history, a.is_connected, missing) refl

  selects_panics : (t : Thread b) → SelectsMissing t → handle_line rt t ≡ panics
  unfolding handle_line process_command run_parsed transition on_select_channel_state select_channel
      choose_channel show_channel
  selects_panics t a =
      let missing =
        c.history_missing t.storage (channel_of t a.ref).name a.is_missing.0 a.is_missing.1 in
      ground (
        arith,
        missing,
        a.is_selecting,
        a.is_parsed,
        a.is_unmatched,
        a.is_number,
        a.is_picked,
        a.is_listed,
        ==_refl t.conn,
      )

  -- A round panics exactly at a line of one of the two kinds.
  pub round_panics :
      (t : Thread b) (e : ReadEvent)
      → Inv t
      → (round rt t e ≡ panics) ↔ (
          AsksMissing (read rt (offer_options rt t) e)
          ⊎ SelectsMissing (read rt (offer_options rt t) e))
  unfolding round
  round_panics t e v =
      let heard = read rt (offer_options rt t) e in
      let v1 = read-Inv rt (offer_options rt t) e (offer_options-Inv rt t v) in
      (
        λ h. elim (bind-eq-panics (handle_line rt heard) (finish_round rt) h) [
          | inl first ↦ handle_line_panics heard v1 first
          | inr (t1, handled, finished) ↦
              absurd (finish_round_safe t1 (handle_line-Inv rt k heard t1 v1 handled) finished)
        ],
        λ h. elim h [
          | inl asks ↦ rw (asks_panics heard asks) refl
          | inr selects ↦ rw (selects_panics heard selects) refl
        ],
      )
