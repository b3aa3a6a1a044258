-- ===== src/Commands/Options.antt =====
-- The options of a command: what the loop over the arguments accepts, and what it reads.
use mchat.Base.{
  ℕ, suc, ◌+◌, ◌≤◌, ◌≡◌, refl, inl, inr, Bool, true, false, ◌&&◌, ◌||◌, List, [], ◌∷◌, ◌++◌, Option,
  none, some, leb, arith, Bytes, codes, equal, equal_iff, &&_iff, equal_refl, length, all,
  if◌then◌else◌, Bool-cases,
}
use mchat.Text.Atoi.{ℤ, pos, negsuc, NumError, success, err_syntax, err_range, atoi}
use mchat.Commands.{
  CommandOption, ParseResult, failed, error_invalid_value, returned, proceeds, channel_flag,
  period_flag, set_period, match_options, parse_arguments,
}

-- The option stands in the list, and the parser has a case for it.
abbrev pub is_handled : List CommandOption → Bytes → Bool
is_handled [] key = false
is_handled (opt ∷ opts) key =
    equal key opt.name && (equal key channel_flag || equal key period_flag) || is_handled opts key

-- A period is a number that fits an `int` and is not negative.
abbrev pub to_natural : ℤ × NumError → Option ℕ
to_natural (pos n, success) = some n
to_natural _ = none

abbrev pub is_natural : ℤ × NumError → Bool
is_natural (pos n, success) = true
is_natural _ = false

abbrev pub read_natural : ℕ → ℤ × NumError → ℕ
read_natural d (pos n, success) = n
read_natural d _ = d

flags_differ : equal period_flag channel_flag ≡ false
unfolding equal channel_flag period_flag
flags_differ = refl

set_period_lem :
    (r : ParseResult) (value : Bytes) (n : ℤ × NumError)
    → is_natural n ≡ true
    → set_period r value n
      ≡ proceeds (record r { period = read_natural r.period n; is_matched = true })
unfolding set_period
set_period_lem r value (pos n, success) h = refl
set_period_lem r value (pos n, err_syntax) h = cc
set_period_lem r value (pos n, err_range) h = cc
set_period_lem r value (negsuc n, e) h = cc

match_options_lem :
    (opts : List CommandOption) (key value : Bytes) (r : ParseResult)
    → match_options opts key value r ≡ (
        if is_handled opts key
        then (if equal key channel_flag
            then proceeds (record r { channel = value; is_matched = true })
            else set_period r value (atoi value))
        else proceeds r)
unfolding match_options
match_options_lem [] key value r = refl
match_options_lem (opt ∷ opts) key value r =
    ground (arith, equal_iff key opt.name, equal_refl key, match_options_lem opts key value r)

-- The words of a list of pairs.
abbrev pub arguments : List (Bytes × Bytes) → List Bytes
arguments [] = []
arguments ((key, value) ∷ ps) = key ∷ value ∷ arguments ps

-- The value is a period wherever one is read.
abbrev pub pair_fits : List CommandOption → Bytes × Bytes → Bool
pair_fits opts (key, value) =
    if is_handled opts key
    then (if equal key channel_flag then true else is_natural (atoi value))
    else true

abbrev pub first_handled : List CommandOption → List (Bytes × Bytes) → Bool
first_handled opts [] = true
first_handled opts ((key, value) ∷ ps) = is_handled opts key

-- What the parser asks of the arguments of a command: no more pairs than the command has options,
-- an option of the command first, and a number wherever a period is read.
abbrev pub accepts : List CommandOption → List (Bytes × Bytes) → Bool
accepts opts ps = leb (length ps) (length opts) && first_handled opts ps && all (pair_fits opts) ps

-- What one pair changes of the result.
abbrev pub read_pair : List CommandOption → ParseResult → Bytes × Bytes → ParseResult
read_pair opts r (key, value) =
    if is_handled opts key
    then (if equal key channel_flag
        then record r { channel = value; is_matched = true }
        else record r { period = read_natural r.period (atoi value); is_matched = true })
    else r

abbrev pub read_pairs : List CommandOption → ParseResult → List (Bytes × Bytes) → ParseResult
read_pairs opts r [] = record r { is_matched = true }
read_pairs opts r (p ∷ ps) = read_pairs opts (read_pair opts r p) ps

match_pair :
    (opts : List CommandOption) (key value : Bytes) (r : ParseResult)
    → pair_fits opts (key, value) ≡ true
    → match_options opts key value r ≡ proceeds (read_pair opts r (key, value))
match_pair opts key value r h =
    rw match_options_lem (ground (arith, set_period_lem r value (atoi value)))

-- The loop from any option index on.
pub parse_arguments_read :
    (opts : List CommandOption) (i : ℕ) (ps : List (Bytes × Bytes)) (r : ParseResult)
    → i + length ps ≤ length opts
    → (r.is_matched || first_handled opts ps) ≡ true
    → all (pair_fits opts) ps ≡ true
    → parse_arguments opts i (arguments ps) r ≡ read_pairs opts r ps
unfolding parse_arguments
parse_arguments_read opts i [] r few first fits = refl
parse_arguments_read opts i ((key, value) ∷ ps) r few first fits =
    let parts = (&&_iff (pair_fits opts (key, value)) (all (pair_fits opts) ps)).0 fits in
    ground (
      arith,
      match_pair opts key value r parts.0,
      parse_arguments_read opts (suc i) ps (read_pair opts r (key, value)),
    )

set_period_misfit :
    (r : ParseResult) (value : Bytes) (n : ℤ × NumError)
    → is_natural n ≡ false
    → set_period r value n ≡ returned (failed r error_invalid_value (codes "period " ++ value))
unfolding set_period
set_period_misfit r value (pos n, success) h = cc
set_period_misfit r value (pos n, err_syntax) h = refl
set_period_misfit r value (pos n, err_range) h = refl
set_period_misfit r value (negsuc n, e) h = refl

match_misfit :
    (opts : List CommandOption) (key value : Bytes) (r : ParseResult)
    → pair_fits opts (key, value) ≡ false
    → match_options opts key value r
      ≡ returned (failed r error_invalid_value (codes "period " ++ value))
match_misfit opts key value r h =
    rw match_options_lem (ground (arith, set_period_misfit r value (atoi value)))

abbrev pub has_error : ParseResult → Bool
has_error r = elim r.error [ none ↦ false | some e ↦ true ]

pub parse_arguments_refuse :
    (opts : List CommandOption) (i : ℕ) (ps : List (Bytes × Bytes)) (r : ParseResult)
    → i ≤ length opts
    → (leb (i + length ps) (length opts)
        && (r.is_matched || first_handled opts ps)
        && all (pair_fits opts) ps)
      ≡ false
    → has_error (parse_arguments opts i (arguments ps) r) ≡ true
unfolding parse_arguments
parse_arguments_refuse opts i [] r fits h = ground arith
parse_arguments_refuse opts i ((key, value) ∷ ps) r fits h =
    elim (Bool-cases (pair_fits opts (key, value))) [
      | inl good ↦ ground (
        arith,
        match_pair opts key value r,
        parse_arguments_refuse opts (suc i) ps (read_pair opts r (key, value)),
      )
      | inr bad ↦ ground (arith, match_misfit opts key value r)
    ]
