-- ===== src/Command/StringArguments.antt =====
-- The parsers of command/string.rs, for SET and MSET.
use thesaurus.Prelude.{
  ℕ, ◌+◌, ◌%◌, Bool, true, false, ◌||◌, Option, none, some, List, [], ◌∷◌, Str, codes, str_eq, ok,
  err, done, ◌==◌, if◌then◌else◌, is_some,
}
use thesaurus.Decimal.{parse_unsigned, parse_u64, max_u64}
use thesaurus.Resp2.{Items, nil, cons, count}
use thesaurus.Command.{
  wrong_arity, syntax_error, SetCondition, nx, xx, if_eq, if_ne, if_deq, if_dne, SetExpiry, ex, px,
  ex_at, px_at, keep_ttl, Command,
}
use thesaurus.Command.Checked.{
  Checked, ◌>>=◌, ◌>>◌, text, arg, next_token, skip, all_texts, or_not_an_integer,
}
use thesaurus.Command.Arguments.{Parsed, as_u8, check_min_arity}

-- The options of SET as the loop of `parse_set_command` gathers them.
pub record SetOptions : Type 0 where
  pub condition : Option SetCondition
  pub expiry : Option SetExpiry
  pub get : Bool

abbrev pub no_options : SetOptions
no_options = record { condition = none; expiry = none; get = false }

-- a condition, or an expiry, where none has been given yet
abbrev pub with_condition : SetOptions → SetCondition → Checked SetOptions
with_condition o c =
    if is_some o.condition
    then done (err syntax_error)
    else done (ok (record o { condition = some c }))

abbrev pub with_expiry : SetOptions → SetExpiry → Checked SetOptions
with_expiry o e =
    if is_some o.expiry then done (err syntax_error) else done (ok (record o { expiry = some e }))

-- the arms of the match for the tokens that take no value
unfoldable pub flag_option : Str → SetOptions → Checked SetOptions
flag_option token o =
    if str_eq token (codes "NX")
    then with_condition o nx
    else if str_eq token (codes "XX")
    then with_condition o xx
    else if str_eq token (codes "GET")
    then done (ok (record o { get = true }))
    else if str_eq token (codes "KEEPTTL")
    then with_expiry o keep_ttl
    else done (err syntax_error)

unfoldable pub takes_value : Str → Bool
takes_value token =
    str_eq token (codes "IFEQ")
    || str_eq token (codes "IFNE")
    || str_eq token (codes "IFDEQ")
    || str_eq token (codes "IFDNE")
    || str_eq token (codes "EX")
    || str_eq token (codes "PX")
    || str_eq token (codes "EXAT")
    || str_eq token (codes "PXAT")

-- A second option of the same group is an error before its value is read.
abbrev pub digest_option : SetOptions → (ℕ → SetCondition) → Str → Checked SetOptions
digest_option o make value = if is_some o.condition then done (err syntax_error) else (do
  n ← or_not_an_integer (parse_unsigned 16 max_u64 value) value
  with_condition o (make n))

abbrev pub expiry_option : SetOptions → (ℕ → SetExpiry) → Str → Checked SetOptions
expiry_option o make value =
    if is_some o.expiry
    then done (err syntax_error)
    else (do n ← or_not_an_integer (parse_u64 value) value; with_expiry o (make n))

-- the arms for the tokens that take a value
unfoldable pub value_option : Str → Str → SetOptions → Checked SetOptions
value_option token value o =
    if str_eq token (codes "IFEQ")
    then with_condition o (if_eq value)
    else if str_eq token (codes "IFNE")
    then with_condition o (if_ne value)
    else if str_eq token (codes "IFDEQ")
    then digest_option o if_deq value
    else if str_eq token (codes "IFDNE")
    then digest_option o if_dne value
    else if str_eq token (codes "EX")
    then expiry_option o ex value
    else if str_eq token (codes "PX")
    then expiry_option o px value
    else if str_eq token (codes "EXAT")
    then expiry_option o ex_at value
    else expiry_option o px_at value

-- The loop over `args[3..]`. A token whose value is missing is a syntax error.
unfoldable pub parse_set_options : Items → SetOptions → Checked SetOptions
unfolding flag_option takes_value value_option
parse_set_options nil o = done (ok o)
parse_set_options (cons token nil) o =
    text token >>= λ t. if takes_value t then done (err syntax_error) else flag_option t o
parse_set_options (cons token (cons value rest)) o =
    let behind_value = λ (o' : SetOptions). parse_set_options rest o' in
    let behind_flag = λ (o' : SetOptions). parse_set_options (cons value rest) o' in
    text token >>= λ t.
    if takes_value t
    then (next_token value >>= λ v. value_option t v o) >>= behind_value
    else flag_option t o >>= behind_flag

unfoldable pub parse_set_command : Items → Parsed
unfolding check_min_arity parse_set_options
parse_set_command args = do
  check_min_arity args 3
  key ← arg args 1
  value ← arg args 2
  o ← parse_set_options (skip 3 args) no_options
  done (ok (Command.set key value o.condition o.expiry o.get))

-- `chunks_exact(2)`
abbrev pub pairs : List Str → List (Str × Str)
pairs [] = []
pairs (k ∷ []) = []
pairs (k ∷ v ∷ rest) = (k, v) ∷ pairs rest

unfoldable pub parse_mset_command : Items → Parsed
unfolding check_min_arity
parse_mset_command args = do
  check_min_arity args 3
  if count args % 2 == 0
      then done (err (wrong_arity (as_u8 (count args) + 1) (as_u8 (count args))))
      else (do items ← all_texts (skip 1 args); done (ok (Command.mset (pairs items))))
