-- ===== src/Commands/Errors.antt =====
-- The errors that the parser reports.
use mchat.Base.{
  ℕ, suc, ◌≡◌, refl, ◌⊎◌, Option, none, some, List, [], ◌∷◌, ◌++◌, Bytes, codes, branches_hold, not,
  inl, inr, equal, leb, length,
}
use mchat.Text.{has_prefix, split, to_lower}
use mchat.Text.Atoi.{ℤ, NumError, pos, negsuc, success, err_syntax, err_range, atoi}
use mchat.Commands.{
  ParseResult, ParseError, CommandOption, Command, Turn, returned, proceeds, error_text,
  error_message, set_period, match_options, parse_arguments, find_command, parse_words,
  parse_command, command_table, initial_result, channel_flag, period_flag,
}

-- The error, if there is one, is one that has a text.
abbrev HasText : Option ParseError → Type 0
HasText none = Unit
HasText (some e) = (text : Bytes) × (error_text e.t ≡ some text)

abbrev ResultHasText : ParseResult → Type 0
ResultHasText r = HasText r.error

abbrev turn_result : Turn → ParseResult
turn_result (returned r) = r
turn_result (proceeds r) = r

abbrev TurnHasText : Turn → Type 0
TurnHasText t = HasText (turn_result t).error

set_period-HasText :
    (r : ParseResult) (value : Bytes) (n : ℤ × NumError)
    → HasText r.error
    → TurnHasText (set_period r value n)
unfolding set_period error_text
set_period-HasText r value (pos n, success) h = h
set_period-HasText r value (pos n, err_syntax) h = (codes "Invalid value", refl)
set_period-HasText r value (pos n, err_range) h = (codes "Invalid value", refl)
set_period-HasText r value (negsuc n, e) h = (codes "Invalid value", refl)

match_options-HasText :
    (opts : List CommandOption) (key value : Bytes) (r : ParseResult)
    → HasText r.error
    → TurnHasText (match_options opts key value r)
unfolding match_options
match_options-HasText [] key value r h = h
match_options-HasText (opt ∷ opts) key value r h =
    let rest = match_options-HasText opts key value r h in
    let here = set_period-HasText r value (atoi value) h in
    branches_hold TurnHasText (equal key opt.name)
      (branches_hold TurnHasText (equal opt.name channel_flag) h
        (branches_hold TurnHasText (equal opt.name period_flag) here rest))
      rest

Turn-cases :
    (t : Turn) → ((r : ParseResult) × (t ≡ returned r)) ⊎ ((r : ParseResult) × (t ≡ proceeds r))
Turn-cases (returned r) = inl (r, refl)
Turn-cases (proceeds r) = inr (r, refl)

parse_arguments-HasText :
    (opts : List CommandOption) (i : ℕ) (args : List Bytes) (r : ParseResult)
    → HasText r.error
    → HasText (parse_arguments opts i args r).error
unfolding parse_arguments error_text
parse_arguments-HasText opts i [] r h = h
parse_arguments-HasText opts i (key ∷ []) r h =
    branches_hold ResultHasText (leb (length opts) i) (codes "Unexpected argument", refl)
      (codes "Argument not specified", refl)
parse_arguments-HasText opts i (key ∷ value ∷ args) r h =
    branches_hold ResultHasText (leb (length opts) i) (codes "Unexpected argument", refl)
      (elim (Turn-cases (match_options opts key value r)) [
        | inl (r', e) ↦ rw e (rw e at (match_options-HasText opts key value r h))
        | inr (r', e) ↦
            let matched = rw e at (match_options-HasText opts key value r h) in
            rw e (
              branches_hold ResultHasText (not r'.is_matched) (codes "Unregognized argument", refl)
                (parse_arguments-HasText opts (suc i) args r' matched))
      ])

find_command-HasText :
    (cmds : List Command) (word : Bytes) (args : List Bytes) (r : ParseResult)
    → HasText r.error
    → HasText (find_command cmds word args r).error
unfolding find_command
find_command-HasText [] word args r h = h
find_command-HasText (cmd ∷ cmds) word args r h =
    branches_hold ResultHasText (equal (to_lower word) cmd.name)
      (parse_arguments-HasText cmd.options 0 args (record r { command_type = cmd.kind }) h)
      (find_command-HasText cmds word args r h)

parse_words-HasText : (words : List Bytes) → HasText (parse_words words).error
unfolding parse_words
parse_words-HasText [] = tt
parse_words-HasText (word ∷ args) = find_command-HasText command_table word args initial_result tt

parse_command-HasText : (s : Bytes) → HasText (parse_command s).error
unfolding parse_command
parse_command-HasText s =
    branches_hold ResultHasText (has_prefix s (b':' ∷ [])) (parse_words-HasText (split s b' ')) tt

-- Whatever is parsed, printing the error of the result does not panic.
pub error_message-parse_command :
    (s : Bytes) (e : ParseError)
    → (parse_command s).error ≡ some e
    → (m : Bytes) × (error_message e ≡ some m)
unfolding error_message
error_message-parse_command s e h =
    let (text, has) = rw h at (parse_command-HasText s) in
    (codes "error: " ++ (text ++ (b' ' ∷ (e.msg ++ (13 ∷ 10 ∷ [])))), rw (has, error_message))
