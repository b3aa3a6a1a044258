-- ===== src/Commands/Parsing.antt =====
-- Command lines: from the text of a line to the parser's result.
use mchat.Base.{
  ℕ, ◌≡◌, refl, ap, ◌∙◌, true, false, List, [], ◌∷◌, none, some, arith, Bytes, equal, get_elem?,
  All, All-get_elem?,
}
use mchat.Text.{has_prefix, to_lower}
use mchat.Text.Laws.{join, IsWithout, split-join}
use mchat.Commands.{
  ParseResult, Command, CommandOption, initial_result, command_table, menu_command, history_command,
  members_command, channels_command, commands_command, parse_arguments, find_command, parse_words,
  parse_command,
}
use mchat.Commands.Options.{
  arguments, accepts, read_pairs, has_error, parse_arguments_read, parse_arguments_refuse,
}

parse_arguments-accepts :
    (opts : List CommandOption) (ps : List (Bytes × Bytes)) (r : ParseResult)
    → r.is_matched ≡ false
    → r.error ≡ none
    → (accepts opts ps ≡ true → parse_arguments opts 0 (arguments ps) r ≡ read_pairs opts r ps)
      × (accepts opts ps ≡ false → has_error (parse_arguments opts 0 (arguments ps) r) ≡ true)
parse_arguments-accepts opts ps r m e = (
  λ h. parse_arguments_read opts 0 ps r (ground arith) (ground arith) (ground arith),
  λ h. parse_arguments_refuse opts 0 ps r (omega arith) (ground arith),
)

-- Any spelling of the name, in upper or lower case, finds the command.
record IsNamed (cmd : Command) : Type 0 where
  is_found :
      (word : Bytes) (args : List Bytes) (r : ParseResult)
      → to_lower word ≡ cmd.name
      → find_command command_table word args r
        ≡ parse_arguments cmd.options 0 args (record r { command_type = cmd.kind })

menu_command-IsNamed : IsNamed menu_command
unfolding command_table find_command equal
menu_command-IsNamed = record { is_found = λ word args r e. rw (e, find_command) refl }

history_command-IsNamed : IsNamed history_command
unfolding command_table find_command equal
history_command-IsNamed = record { is_found = λ word args r e. rw (e, find_command) refl }

members_command-IsNamed : IsNamed members_command
unfolding command_table find_command equal
members_command-IsNamed = record { is_found = λ word args r e. rw (e, find_command) refl }

channels_command-IsNamed : IsNamed channels_command
unfolding command_table find_command equal
channels_command-IsNamed = record { is_found = λ word args r e. rw (e, find_command) refl }

commands_command-IsNamed : IsNamed commands_command
unfolding command_table find_command equal
commands_command-IsNamed = record { is_found = λ word args r e. rw (e, find_command) refl }

table_names : All IsNamed command_table
unfolding command_table
table_names = (
  menu_command-IsNamed,
  (
    history_command-IsNamed,
    (members_command-IsNamed, (channels_command-IsNamed, (commands_command-IsNamed, tt))),
  ),
)

-- The text of a command line.
abbrev pub line : Bytes → List (Bytes × Bytes) → Bytes
line word ps = join b' ' (word ∷ arguments ps)

join-has_prefix :
    (sep c : ℕ) (word : Bytes) (ps : List Bytes)
    → has_prefix word (c ∷ []) ≡ true
    → has_prefix (join sep (word ∷ ps)) (c ∷ []) ≡ true
unfolding has_prefix
join-has_prefix sep c [] ps h = cc
join-has_prefix sep c (d ∷ word) [] h = ground arith
join-has_prefix sep c (d ∷ word) (p ∷ ps) h = ground arith

parse_command-join :
    (word : Bytes) (args : List Bytes)
    → has_prefix word (b':' ∷ []) ≡ true
    → All (IsWithout b' ') (word ∷ args)
    → parse_command (join b' ' (word ∷ args)) ≡ parse_words (word ∷ args)
unfolding parse_command
parse_command-join word args h w =
    rw (join-has_prefix b' ' b':' word args h) (ap parse_words (split-join b' ' word args w))

parse_command-line :
    (i : ℕ) (cmd : Command) (word : Bytes) (ps : List (Bytes × Bytes))
    → get_elem? command_table i ≡ some cmd
    → to_lower word ≡ cmd.name
    → has_prefix word (b':' ∷ []) ≡ true
    → All (IsWithout b' ') (word ∷ arguments ps)
    → parse_command (line word ps)
      ≡ parse_arguments cmd.options 0
          (arguments ps)
          (record initial_result { command_type = cmd.kind })
parse_command-line i cmd word ps at e h w =
    let named = All-get_elem? IsNamed command_table i table_names at in
    parse_command-join word (arguments ps) h w
    ∙ parsed
    ∙ named.is_found word (arguments ps) initial_result e
  where
    parsed :
        parse_words (word ∷ arguments ps)
        ≡ find_command command_table word (arguments ps) initial_result
    parsed = unfold parse_words in refl

-- A line of a command's name, in any case, and of pairs of words without spaces gives the command's
-- type and the options that the pairs set, if the pairs are accepted: there are no more of them
-- than options, the first of them sets an option of the command, and a number stands wherever a
-- period is read.
pub parse_command-accepts :
    (i : ℕ) (cmd : Command) (word : Bytes) (ps : List (Bytes × Bytes))
    → get_elem? command_table i ≡ some cmd
    → to_lower word ≡ cmd.name
    → has_prefix word (b':' ∷ []) ≡ true
    → All (IsWithout b' ') (word ∷ arguments ps)
    → accepts cmd.options ps ≡ true
    → parse_command (line word ps)
      ≡ read_pairs cmd.options (record initial_result { command_type = cmd.kind }) ps
parse_command-accepts i cmd word ps at e h w a =
    let start = record initial_result { command_type = cmd.kind } in
    parse_command-line i cmd word ps at e h w
    ∙ (parse_arguments-accepts cmd.options ps start refl refl).0 a

-- A line of a command's name, in any case, and of pairs of words without spaces that are not
-- accepted gives an error.
pub parse_command_refuses :
    (i : ℕ) (cmd : Command) (word : Bytes) (ps : List (Bytes × Bytes))
    → get_elem? command_table i ≡ some cmd
    → to_lower word ≡ cmd.name
    → has_prefix word (b':' ∷ []) ≡ true
    → All (IsWithout b' ') (word ∷ arguments ps)
    → accepts cmd.options ps ≡ false
    → has_error (parse_command (line word ps)) ≡ true
parse_command_refuses i cmd word ps at e h w r =
    let start = record initial_result { command_type = cmd.kind } in
    rw (parse_command-line i cmd word ps at e h w)
      ((parse_arguments-accepts cmd.options ps start refl refl).1 r)
