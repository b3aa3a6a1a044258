-- ===== src/Commands/Table.antt =====
-- The table of commands, and the messages of the parser's errors.
use mchat.Base.{ℕ, ◌⊎◌, inl, inr, ◌≡◌, refl, Option, none, some, get_elem?}
use mchat.Commands.{
  CommandType, command_null, command_display_menu, command_display_history, command_list_members,
  command_list_channels, command_list_commands, command_sentinel, Command, index, command_table,
  menu_command, history_command, members_command, channels_command, commands_command,
}

-- What stands at the place of a command in the table; `none` is the panic.
abbrev pub HasPlace : CommandType → Option ℕ → Type 0
HasPlace t none = (t ≡ command_null) ⊎ (t ≡ command_sentinel)
HasPlace t (some i) = (c : Command) × (get_elem? command_table i ≡ some c) × (c.kind ≡ t)

-- Each command but the two bounds has a place, where the table holds the command of that type; the
-- bounds have none.
pub index-command_table : (t : CommandType) → HasPlace t (index t)
unfolding index command_table
index-command_table command_null = inl refl
index-command_table command_display_menu = (menu_command, refl, refl)
index-command_table command_display_history = (history_command, refl, refl)
index-command_table command_list_members = (members_command, refl, refl)
index-command_table command_list_channels = (channels_command, refl, refl)
index-command_table command_list_commands = (commands_command, refl, refl)
index-command_table command_sentinel = inr refl
