-- ===== src/Commands/Examples.antt =====
-- Lines of pkg/commands/commands_test.go, and the theorems at such lines.
use mchat.Base.{◌≡◌, refl, true, false, none, some, List, [], ◌∷◌, Bytes, codes, equal}
use mchat.Text.{has_prefix, split, to_lower}
use mchat.Text.Atoi.{atoi}
use mchat.Commands.{
  parse_command, command_table, command_display_history, error_invalid_value, index,
  history_command, initial_result,
}
use mchat.Commands.Table.{HasPlace, index-command_table}
use mchat.Commands.Options.{read_pairs, has_error}
use mchat.Commands.Parsing.{line, parse_command-accepts, parse_command_refuses}

history_line : parse_command (codes ":history -channel Dragonflies -period 8") ≡ (record {
  command_type = command_display_history;
  channel = codes "Dragonflies";
  period = 8;
  error = none;
  is_matched = true;
})
unfolding parse_command command_table has_prefix split to_lower atoi equal
history_line = refl

not_a_command : (parse_command (codes ":menu___")).is_matched ≡ false
unfolding parse_command command_table has_prefix split to_lower atoi equal
not_a_command = refl

negative_period :
    (parse_command (codes ":history -period -234")).error
    ≡ some (record { t = error_invalid_value; msg = codes "period -234" })
unfolding parse_command command_table has_prefix split to_lower atoi equal
negative_period = refl

index-command_table_example : HasPlace command_display_history (index command_display_history)
index-command_table_example = index-command_table command_display_history

abbrev one_pair : List (Bytes × Bytes)
one_pair = (codes "-channel", codes "Dragonflies") ∷ []

parse_command-accepts_example :
    parse_command (line (codes ":HISTORY") one_pair)
    ≡ read_pairs history_command.options
        (record initial_result { command_type = history_command.kind })
        one_pair
unfolding command_table to_lower has_prefix equal
parse_command-accepts_example =
    parse_command-accepts 1 history_command (codes ":HISTORY") one_pair refl refl refl
      (refl, (refl, (refl, tt))) refl

abbrev unknown_pair : List (Bytes × Bytes)
unknown_pair = (codes "-room", codes "Dragonflies") ∷ []

parse_command_refuses_example :
    has_error (parse_command (line (codes ":history") unknown_pair)) ≡ true
unfolding command_table to_lower has_prefix equal
parse_command_refuses_example =
    parse_command_refuses 1 history_command (codes ":history") unknown_pair refl refl refl
      (refl, (refl, (refl, tt))) refl
