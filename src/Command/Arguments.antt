-- ===== src/Command/Arguments.antt =====
-- The parsers of command/mod.rs, command/list.rs and command/set.rs for the arguments of a command,
-- its name in front.
use thesaurus.Prelude.{
  ℕ, ◌%◌, Option, none, some, List, Str, codes, str_eq, ok, err, done, ltb, ◌==◌, if◌then◌else◌, ℤ,
}
use thesaurus.Decimal.{parse_unsigned, parse_u64, parse_i64}
use thesaurus.Resp2.{bulk_string, Items, nil, cons, count}
use thesaurus.Command.{
  wrong_arity, not_an_integer, db_index_out_of_range, syntax_error, sync, async, Command,
}
use thesaurus.Command.Checked.{Checked, ◌>>=◌, ◌>>◌, text, arg, skip, all_texts, or_not_an_integer}

abbrev pub Parsed : Type 0
Parsed = Checked Command

-- `as u8`
abbrev pub as_u8 : ℕ → ℕ
as_u8 n = n % 256

unfoldable pub check_arity : Items → ℕ → Checked (Unit {0})
check_arity args expected =
    if count args == expected
    then done (ok tt)
    else done (err (wrong_arity (as_u8 expected) (as_u8 (count args))))

unfoldable pub check_min_arity : Items → ℕ → Checked (Unit {0})
check_min_arity args min_expected =
    if ltb (count args) min_expected
    then done (err (wrong_arity (as_u8 min_expected) (as_u8 (count args))))
    else done (ok tt)

unfoldable pub parse_ping_command : Items → Parsed
parse_ping_command args =
    if count args == 1
    then done (ok (Command.ping none))
    else (arg args 1 >>= λ message. done (ok (Command.ping (some message))))

unfoldable pub parse_key_command : Items → (Str → Command) → Parsed
unfolding check_arity
parse_key_command args make_cmd = do check_arity args 2; key ← arg args 1; done (ok (make_cmd key))

unfoldable pub parse_keys_command : Items → (List Str → Command) → Parsed
unfolding check_min_arity
parse_keys_command args make_cmd = do
  check_min_arity args 2
  keys ← all_texts (skip 1 args)
  done (ok (make_cmd keys))

unfoldable pub parse_key_with_elements_command : Items → (Str → List Str → Command) → Parsed
unfolding check_min_arity
parse_key_with_elements_command args make_cmd = do
  check_min_arity args 3
  key ← arg args 1
  elements ← all_texts (skip 2 args)
  done (ok (make_cmd key elements))

-- the optional count behind the key, `args.get(2)`
abbrev pub optional_integer : {A : Type 0} → (Str → Option A) → Items → Checked (Option A)
optional_integer parse nil = done (ok none)
optional_integer parse (cons (bulk_string (some s)) args) = do
  n ← or_not_an_integer (parse s) s
  done (ok (some n))
optional_integer parse (cons v args) = done (ok none)

unfoldable pub parse_pop_command : Items → (Str → Option ℕ → Command) → Parsed
unfolding check_min_arity
parse_pop_command args make_cmd = do
  check_min_arity args 2
  key ← arg args 1
  amount ← optional_integer parse_u64 (skip 2 args)
  done (ok (make_cmd key amount))

unfoldable pub parse_expire_commands : Items → (Str → ℕ → Command) → Parsed
unfolding check_arity
parse_expire_commands args make_cmd = do
  check_arity args 3
  key ← arg args 1
  s ← arg args 2
  seconds ← or_not_an_integer (parse_u64 s) s
  done (ok (make_cmd key seconds))

-- A database index that is an integer, though no `u8`, is out of range.
abbrev pub index_or_error : Option ℕ → Option ℤ → Str → Parsed
index_or_error (some index) _ s = done (ok (Command.select index))
index_or_error none (some _) s = done (err db_index_out_of_range)
index_or_error none none s = done (err (not_an_integer s))

unfoldable pub parse_select_command : Items → Parsed
unfolding check_arity
parse_select_command args = do
  check_arity args 2
  s ← arg args 1
  index_or_error (parse_unsigned 10 255 s) (parse_i64 s) s

unfoldable pub parse_dbsize_command : Items → Parsed
unfolding check_arity
parse_dbsize_command args = do check_arity args 1; done (ok Command.db_size)

abbrev pub flush_mode : Items → Parsed
flush_mode nil = done (ok (Command.flush_db none))
flush_mode (cons v args) = text v >>= λ s.
    if str_eq s (codes "SYNC")
    then done (ok (Command.flush_db (some sync)))
    else if str_eq s (codes "ASYNC")
    then done (ok (Command.flush_db (some async)))
    else done (err syntax_error)

unfoldable pub parse_flushdb_command : Items → Parsed
parse_flushdb_command args =
    if ltb 2 (count args)
    then done (err (wrong_arity 1 (as_u8 (count args))))
    else flush_mode (skip 1 args)

unfoldable pub parse_lset_command : Items → Parsed
unfolding check_arity
parse_lset_command args = do
  check_arity args 4
  key ← arg args 1
  s ← arg args 2
  index ← or_not_an_integer (parse_i64 s) s
  element ← arg args 3
  done (ok (Command.lset key index element))

unfoldable pub parse_lindex_command : Items → Parsed
unfolding check_arity
parse_lindex_command args = do
  check_arity args 3
  key ← arg args 1
  s ← arg args 2
  index ← or_not_an_integer (parse_i64 s) s
  done (ok (Command.lindex key index))

unfoldable pub parse_lrange_command : Items → Parsed
unfolding check_arity
parse_lrange_command args = do
  check_arity args 4
  key ← arg args 1
  s ← arg args 2
  start ← or_not_an_integer (parse_i64 s) s
  t ← arg args 3
  stop ← or_not_an_integer (parse_i64 t) t
  done (ok (Command.lrange key start stop))

unfoldable pub parse_smove_command : Items → Parsed
unfolding check_arity
parse_smove_command args = do
  check_arity args 4
  source ← arg args 1
  destination ← arg args 2
  member ← arg args 3
  done (ok (Command.smove source destination member))

unfoldable pub parse_sismember_command : Items → Parsed
unfolding check_arity
parse_sismember_command args = do
  check_arity args 3
  key ← arg args 1
  member ← arg args 2
  done (ok (Command.sismember key member))

unfoldable pub parse_smismember_command : Items → Parsed
unfolding check_min_arity
parse_smismember_command args = do
  check_min_arity args 3
  key ← arg args 1
  members ← all_texts (skip 2 args)
  done (ok (Command.smismember key members))

unfoldable pub parse_srandmember_command : Items → Parsed
unfolding check_min_arity
parse_srandmember_command args = do
  check_min_arity args 2
  key ← arg args 1
  amount ← optional_integer parse_i64 (skip 2 args)
  done (ok (Command.srandmember key amount))
