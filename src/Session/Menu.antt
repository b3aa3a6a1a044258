-- ===== src/Session/Menu.antt =====
-- `onJoiningState` of pkg/session/reader.go: the menu.
use mchat.Base.{ℕ, ◌+◌, ◌-◌, ◌%◌, not, ◌&&◌, codes, ◌==◌, if◌then◌else◌}
use mchat.Runtime.{Runtime}
use mchat.Text.Atoi.{ℤ, pos, negsuc, NumError, success, atoi}
use mchat.Backend.Defs.{Backend}
use mchat.Session.State.{
  state_joining, state_registration, state_authentication, state_accepting_messages,
  state_creating_channel, state_selecting_channel, state_processing_menu, state_disconnecting,
  match_state, is_connected, substate_null, substate_reading_name, Thread, Outcome, done, panics,
  ◌>>=◌,
}
use mchat.Session.Actions.{
  conn_of, update_state, notice, notice_line, display_channels, display_members,
}
use mchat.Session.Texts.{around}

pub data MenuOption : Type 0 where
  op_register op_authenticate op_create_channel op_select_channel : MenuOption
  op_list_members op_display_chat op_exit no_option : MenuOption

-- the low byte of `op - 1`: the conversion to the 8 bits of `option` keeps no more
unfoldable pub option_byte : ℤ → ℕ
option_byte (pos n) = (n + 255) % 256
option_byte (negsuc n) = (510 - n % 256) % 256

-- `option(op)`, as far as the switch tells its values apart
unfoldable pub menu_option : ℤ → MenuOption
unfolding option_byte
menu_option op =
    let byte = option_byte op in
    if byte == 0
    then op_register
    else if byte == 1
    then op_authenticate
    else if byte == 2
    then op_create_channel
    else if byte == 3
    then op_select_channel
    else if byte == 4
    then op_list_members
    else if byte == 5
    then op_display_chat
    else if byte == 6
    then op_exit
    else no_option

module _ (rt : Runtime) {b : Backend} where
  -- the switch; `op_display_chat` has no case
  unfoldable pub choose : MenuOption → Thread b → Outcome (Thread b)
  unfolding match_state notice notice_line display_channels display_members
  choose op_register t = done (
      if match_state t.state state_joining
      then update_state (notice rt t (codes "enter username: ")) state_registration
          substate_reading_name
      else notice_line rt t (codes "Already registered"))
  choose op_authenticate t = done (
      if match_state t.state state_joining
      then update_state (notice rt t (codes "enter username: ")) state_authentication
          substate_reading_name
      else notice_line rt t (codes "Already authenticated"))
  choose op_create_channel t = done (
      if not (match_state t.state state_joining)
      then update_state (notice rt t (codes "enter channel name: ")) state_creating_channel
          substate_reading_name
      else notice_line rt t (codes "Authentication required"))
  choose op_select_channel t =
      if is_connected (conn_of t).state
      then (do
        displayed ← display_channels rt t
        done (
            if displayed.1
            then update_state (notice rt displayed.0 (codes "enter channel id: "))
                state_selecting_channel substate_null
            else displayed.0))
      else done (notice_line rt t (codes "Authentication required"))
  choose op_list_members t =
      if is_connected (conn_of t).state
      then (do
        displayed ← display_members rt t
        done (update_state displayed state_accepting_messages substate_null))
      else done (notice_line rt t (codes "Authentication required"))
  choose op_exit t = done (update_state t state_disconnecting substate_null)
  choose op_display_chat t =
      done (notice_line rt t (around (codes "Invalid option ") t.buffer (codes "")))
  choose no_option t =
      done (notice_line rt t (around (codes "Invalid option ") t.buffer (codes "")))

  -- the message of a number that does not parse; the procedure goes on behind it
  unfoldable pub report_option : NumError → Thread b → Thread b
  unfolding notice_line
  report_option success t = t
  report_option _ t = notice_line rt t (around (codes "Option ") t.buffer (codes " not supported"))

  unfoldable pub on_joining_state : Thread b → Outcome (Thread b)
  unfolding match_state
  on_joining_state t =
      if not (match_state t.state state_joining) && not (match_state t.state state_processing_menu)
      then panics
      else (let (op, err) = atoi t.buffer in choose (menu_option op) (report_option err t))
