-- ===== src/Commands.antt =====
-- pkg/commands/commands.go: the table of commands and the parser of command lines.
pub mod Table
pub mod Options
pub mod Parsing
pub mod Errors
mod Examples
use mchat.Base.{
  ℕ, suc, ◌+◌, ◌-◌, Bool, true, false, not, ◌&&◌, ◌||◌, List, [], ◌∷◌, ◌++◌, Option, none, some,
  ltb, leb, ◌==◌, if◌then◌else◌, Bytes, codes, equal, length, replicate,
}
use mchat.Text.{has_prefix, split, to_lower}
use mchat.Text.Atoi.{ℤ, pos, negsuc, NumError, success, err_syntax, err_range, atoi}

pub data CommandType : Type 0 where
  command_null command_display_menu command_display_history : CommandType
  command_list_members command_list_channels command_list_commands : CommandType
  command_sentinel : CommandType

pub data ErrorType : Type 0 where
  error_success error_unexpected_argument error_argument_not_specified : ErrorType
  error_invalid_value error_unrecognized_argument error_sentinel : ErrorType

pub record ParseError : Type 0 where
  pub t : ErrorType
  pub msg : Bytes

pub record ParseResult : Type 0 where
  pub command_type : CommandType
  pub channel : Bytes
  pub period : ℕ
  pub error : Option ParseError
  pub is_matched : Bool

-- `option` of the source
pub record CommandOption : Type 0 where
  pub name : Bytes
  pub arg : Bytes
  pub hint : Bytes

pub record Command : Type 0 where
  pub kind : CommandType
  pub name : Bytes
  pub desc : Bytes
  pub options : List CommandOption

abbrev pub new_command : CommandType → Bytes → Bytes → List CommandOption → Command
new_command kind name desc options = record {
  kind = kind;
  name = name;
  desc = desc;
  options = options;
}

abbrev pub add_option : Command → Bytes → Bytes → Bytes → Command
add_option c name arg hint = record c {
  options = c.options ++ (record { name = name; arg = arg; hint = hint } ∷ []);
}

-- the value of a command type, its place in the `iota` block
abbrev pub command_value : CommandType → ℕ
command_value command_null = 0
command_value command_display_menu = 1
command_value command_display_history = 2
command_value command_list_members = 3
command_value command_list_channels = 4
command_value command_list_commands = 5
command_value command_sentinel = 6

-- the place of a command in the table; `none` is the panic
unfoldable pub index : CommandType → Option ℕ
index cmd =
    if leb (command_value cmd) (command_value command_null)
      || leb (command_value command_sentinel) (command_value cmd)
    then none
    else some (command_value cmd - command_value command_display_menu)

unfoldable pub channel_flag : Bytes
channel_flag = codes "-channel"

unfoldable pub period_flag : Bytes
period_flag = codes "-period"

unfoldable pub menu_command : Command
menu_command = new_command command_display_menu (codes ":menu") (codes "Display menu") []

unfoldable pub history_command : Command
unfolding channel_flag period_flag
history_command =
    add_option
      (add_option
        (new_command command_display_history (codes ":history") (codes "Display chat history") [])
        channel_flag (codes "<name>") (codes "Channel's name"))
      period_flag (codes "<n>") (codes "Time period")

unfoldable pub members_command : Command
unfolding channel_flag
members_command =
    add_option
      (new_command command_list_members (codes ":members") (codes "Display chat members") [])
      channel_flag (codes "<name>") (codes "Channel's name")

unfoldable pub channels_command : Command
channels_command =
    new_command command_list_channels (codes ":channels") (codes "Display all channels") []

unfoldable pub commands_command : Command
commands_command =
    new_command command_list_commands (codes ":commands") (codes "Display commands") []

unfoldable pub command_table : List Command
unfolding menu_command history_command members_command channels_command commands_command
command_table =
    menu_command ∷ history_command ∷ members_command ∷ channels_command ∷ commands_command ∷ []

-- `errorsTable`; `none` is the panic of `Error`
unfoldable pub error_text : ErrorType → Option Bytes
error_text error_success = none
error_text error_unexpected_argument = some (codes "Unexpected argument")
error_text error_argument_not_specified = some (codes "Argument not specified")
error_text error_invalid_value = some (codes "Invalid value")
error_text error_unrecognized_argument = some (codes "Unregognized argument")
error_text error_sentinel = none

-- `Error`: "error: %s" with an end of line
unfoldable pub error_message : ParseError → Option Bytes
unfolding error_text
error_message e = elim (error_text e.t) [
  | none ↦ none
  | some text ↦ some (codes "error: " ++ (text ++ (b' ' ∷ (e.msg ++ (13 ∷ 10 ∷ [])))))
]

abbrev pub failed : ParseResult → ErrorType → Bytes → ParseResult
failed r t msg = record r { error = some (record { t = t; msg = msg }) }

-- How the loop over a command's options ends: by a `return`, or at its end.
pub data Turn : Type 0 where
  returned proceeds : ParseResult → Turn

-- the value of `-period`: `err != nil || count < 0` fails
unfoldable pub set_period : ParseResult → Bytes → ℤ × NumError → Turn
set_period r value (pos n, success) = proceeds (record r { period = n; is_matched = true })
set_period r value _ = returned (failed r error_invalid_value (codes "period " ++ value))

-- `for _, opt := range cmd.options`
unfoldable pub match_options : List CommandOption → Bytes → Bytes → ParseResult → Turn
unfolding set_period
match_options [] key value r = proceeds r
match_options (opt ∷ opts) key value r =
    let rest = match_options opts key value r in
    if equal key opt.name
    then (if equal opt.name channel_flag
        then proceeds (record r { channel = value; is_matched = true })
        else if equal opt.name period_flag
        then set_period r value (atoi value)
        else rest)
    else rest

-- `for i := 1; i < len(arguments); i += 2`, over the arguments from the i-th on
unfoldable pub parse_arguments : List CommandOption → ℕ → List Bytes → ParseResult → ParseResult
unfolding match_options
parse_arguments options option_index [] r = record r { is_matched = true }
parse_arguments options option_index (key ∷ []) r =
    if leb (length options) option_index
    then failed r error_unexpected_argument key
    else failed r error_argument_not_specified []
parse_arguments options option_index (key ∷ value ∷ args) r =
    if leb (length options) option_index
    then failed r error_unexpected_argument key
    else elim (match_options options key value r) [
      | returned r' ↦ r'
      | proceeds r' ↦
          (if not r'.is_matched
            then failed r' error_unrecognized_argument key
            else parse_arguments options (suc option_index) args r')
    ]

-- `for _, cmd := range commandTable`, on the words of the line
unfoldable pub find_command : List Command → Bytes → List Bytes → ParseResult → ParseResult
unfolding parse_arguments
find_command [] word args r = r
find_command (cmd ∷ cmds) word args r =
    let rest = find_command cmds word args r in
    if equal (to_lower word) cmd.name
    then parse_arguments cmd.options 0 args (record r { command_type = cmd.kind })
    else rest

abbrev pub initial_result : ParseResult
initial_result = record {
  command_type = command_sentinel;
  channel = [];
  period = 0;
  error = none;
  is_matched = false;
}

-- `strings.Split` returns at least one word
unfoldable pub parse_words : List Bytes → ParseResult
unfolding find_command
parse_words [] = initial_result
parse_words (word ∷ args) = find_command command_table word args initial_result

unfoldable pub parse_command : Bytes → ParseResult
unfolding parse_words channel_flag period_flag
parse_command buffer =
    if has_prefix buffer (b':' ∷ []) then parse_words (split buffer b' ') else initial_result

-- `%-20s` on an ASCII text
abbrev pub pad : ℕ → Bytes → Bytes
pad width s = s ++ replicate (width - length s) b' '

abbrev tab : ℕ
tab = 9

abbrev end_of_line : Bytes
end_of_line = 13 ∷ 10 ∷ []

-- the lines of one command's options
unfoldable pub option_lines : List CommandOption → Bytes
option_lines [] = []
option_lines (opt ∷ opts) =
    (tab ∷ pad 20 [])
    ++ (tab ∷ opt.name)
    ++ (b' ' ∷ opt.arg)
    ++ (b' ' ∷ opt.hint)
    ++ end_of_line
    ++ option_lines opts

unfoldable pub command_lines : List Command → Bytes
unfolding option_lines
command_lines [] = []
command_lines (cmd ∷ cmds) =
    (tab ∷ pad 20 cmd.name)
    ++ (tab ∷ cmd.desc)
    ++ end_of_line
    ++ option_lines cmd.options
    ++ end_of_line
    ++ command_lines cmds

-- `CommandsBuilder`
unfoldable pub commands_text : Bytes
unfolding command_lines command_table
commands_text = codes "commands:\n" ++ command_lines command_table
