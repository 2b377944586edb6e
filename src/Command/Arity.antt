-- ===== src/Command/Arity.antt =====
-- The parsers of command/ never panic on texts with a name in front: the arity checks keep every index
-- in range.
use thesaurus.Prelude.{ℕ, Option, List, [], ◌∷◌, arith, Str, Outcome, done, panicked, poisoned}
use thesaurus.Resp2.{bulk_strings}
use thesaurus.Command.{Command}
use thesaurus.Command.Options.{all_texts-bulk_strings}
use thesaurus.Command.Arguments.{
  check_arity, check_min_arity, parse_ping_command, parse_key_command, parse_keys_command,
  parse_key_with_elements_command, parse_pop_command, parse_lset_command, parse_lindex_command,
  parse_lrange_command, parse_sismember_command, parse_smismember_command,
  parse_srandmember_command, parse_smove_command, parse_expire_commands, parse_select_command,
  parse_dbsize_command, parse_flushdb_command,
}
use thesaurus.Command.StringArguments.{parse_mset_command}

-- no panic
abbrev pub Returns : {A : Type 0} → Outcome A → Type 0
Returns (done a) = Unit
Returns panicked = ⊥
Returns poisoned = ⊥

pub parse_ping_command-Returns :
    (name : Str) (l : List Str) → Returns (parse_ping_command (bulk_strings (name ∷ l)))
unfolding parse_ping_command check_arity check_min_arity
parse_ping_command-Returns name [] = ground (arith)
parse_ping_command-Returns name (a ∷ []) = ground (arith)
parse_ping_command-Returns name (a ∷ b ∷ l) = ground (arith)

pub parse_key_command-Returns :
    (name : Str) (l : List Str) (make_cmd : Str → Command)
    → Returns (parse_key_command (bulk_strings (name ∷ l)) make_cmd)
unfolding parse_key_command check_arity check_min_arity
parse_key_command-Returns name [] make_cmd = ground (arith)
parse_key_command-Returns name (a ∷ []) make_cmd = ground (arith)
parse_key_command-Returns name (a ∷ b ∷ l) make_cmd = ground (arith)

pub parse_keys_command-Returns :
    (name : Str) (l : List Str) (make_cmd : List Str → Command)
    → Returns (parse_keys_command (bulk_strings (name ∷ l)) make_cmd)
unfolding parse_keys_command check_arity check_min_arity
parse_keys_command-Returns name [] make_cmd = ground (arith)
parse_keys_command-Returns name (a ∷ []) make_cmd = ground (arith)
parse_keys_command-Returns name (a ∷ b ∷ l) make_cmd = ground (arith, all_texts-bulk_strings l)

pub parse_mset_command-Returns :
    (name : Str) (l : List Str) → Returns (parse_mset_command (bulk_strings (name ∷ l)))
unfolding parse_mset_command check_arity check_min_arity
parse_mset_command-Returns name [] = ground (arith)
parse_mset_command-Returns name (a ∷ []) = ground (arith)
parse_mset_command-Returns name (a ∷ b ∷ []) = ground (arith)
parse_mset_command-Returns name (a ∷ b ∷ c ∷ l) = ground (arith, all_texts-bulk_strings l)

pub parse_key_with_elements_command-Returns :
    (name : Str) (l : List Str) (make_cmd : Str → List Str → Command)
    → Returns (parse_key_with_elements_command (bulk_strings (name ∷ l)) make_cmd)
unfolding parse_key_with_elements_command check_arity check_min_arity
parse_key_with_elements_command-Returns name [] make_cmd = ground (arith)
parse_key_with_elements_command-Returns name (a ∷ []) make_cmd = ground (arith)
parse_key_with_elements_command-Returns name (a ∷ b ∷ []) make_cmd = ground (arith)
parse_key_with_elements_command-Returns name (a ∷ b ∷ c ∷ l) make_cmd =
    ground (arith, all_texts-bulk_strings l)

pub parse_pop_command-Returns :
    (name : Str) (l : List Str) (make_cmd : Str → Option ℕ → Command)
    → Returns (parse_pop_command (bulk_strings (name ∷ l)) make_cmd)
unfolding parse_pop_command check_arity check_min_arity
parse_pop_command-Returns name [] make_cmd = ground (arith)
parse_pop_command-Returns name (a ∷ []) make_cmd = ground (arith)
parse_pop_command-Returns name (a ∷ b ∷ []) make_cmd = ground (arith)
parse_pop_command-Returns name (a ∷ b ∷ c ∷ l) make_cmd = ground (arith)

pub parse_lset_command-Returns :
    (name : Str) (l : List Str) → Returns (parse_lset_command (bulk_strings (name ∷ l)))
unfolding parse_lset_command check_arity check_min_arity
parse_lset_command-Returns name [] = ground (arith)
parse_lset_command-Returns name (a ∷ []) = ground (arith)
parse_lset_command-Returns name (a ∷ b ∷ []) = ground (arith)
parse_lset_command-Returns name (a ∷ b ∷ c ∷ []) = ground (arith)
parse_lset_command-Returns name (a ∷ b ∷ c ∷ d ∷ l) = ground (arith)

pub parse_lindex_command-Returns :
    (name : Str) (l : List Str) → Returns (parse_lindex_command (bulk_strings (name ∷ l)))
unfolding parse_lindex_command check_arity check_min_arity
parse_lindex_command-Returns name [] = ground (arith)
parse_lindex_command-Returns name (a ∷ []) = ground (arith)
parse_lindex_command-Returns name (a ∷ b ∷ []) = ground (arith)
parse_lindex_command-Returns name (a ∷ b ∷ c ∷ l) = ground (arith)

pub parse_lrange_command-Returns :
    (name : Str) (l : List Str) → Returns (parse_lrange_command (bulk_strings (name ∷ l)))
unfolding parse_lrange_command check_arity check_min_arity
parse_lrange_command-Returns name [] = ground (arith)
parse_lrange_command-Returns name (a ∷ []) = ground (arith)
parse_lrange_command-Returns name (a ∷ b ∷ []) = ground (arith)
parse_lrange_command-Returns name (a ∷ b ∷ c ∷ []) = ground (arith)
parse_lrange_command-Returns name (a ∷ b ∷ c ∷ d ∷ l) = ground (arith)

pub parse_sismember_command-Returns :
    (name : Str) (l : List Str) → Returns (parse_sismember_command (bulk_strings (name ∷ l)))
unfolding parse_sismember_command check_arity check_min_arity
parse_sismember_command-Returns name [] = ground (arith)
parse_sismember_command-Returns name (a ∷ []) = ground (arith)
parse_sismember_command-Returns name (a ∷ b ∷ []) = ground (arith)
parse_sismember_command-Returns name (a ∷ b ∷ c ∷ l) = ground (arith)

pub parse_smismember_command-Returns :
    (name : Str) (l : List Str) → Returns (parse_smismember_command (bulk_strings (name ∷ l)))
unfolding parse_smismember_command check_arity check_min_arity
parse_smismember_command-Returns name [] = ground (arith)
parse_smismember_command-Returns name (a ∷ []) = ground (arith)
parse_smismember_command-Returns name (a ∷ b ∷ []) = ground (arith)
parse_smismember_command-Returns name (a ∷ b ∷ c ∷ l) = ground (arith, all_texts-bulk_strings l)

pub parse_srandmember_command-Returns :
    (name : Str) (l : List Str) → Returns (parse_srandmember_command (bulk_strings (name ∷ l)))
unfolding parse_srandmember_command check_arity check_min_arity
parse_srandmember_command-Returns name [] = ground (arith)
parse_srandmember_command-Returns name (a ∷ []) = ground (arith)
parse_srandmember_command-Returns name (a ∷ b ∷ []) = ground (arith)
parse_srandmember_command-Returns name (a ∷ b ∷ c ∷ l) = ground (arith)

pub parse_smove_command-Returns :
    (name : Str) (l : List Str) → Returns (parse_smove_command (bulk_strings (name ∷ l)))
unfolding parse_smove_command check_arity check_min_arity
parse_smove_command-Returns name [] = ground (arith)
parse_smove_command-Returns name (a ∷ []) = ground (arith)
parse_smove_command-Returns name (a ∷ b ∷ []) = ground (arith)
parse_smove_command-Returns name (a ∷ b ∷ c ∷ []) = ground (arith)
parse_smove_command-Returns name (a ∷ b ∷ c ∷ d ∷ l) = ground (arith)

pub parse_expire_commands-Returns :
    (name : Str) (l : List Str) (make_cmd : Str → ℕ → Command)
    → Returns (parse_expire_commands (bulk_strings (name ∷ l)) make_cmd)
unfolding parse_expire_commands check_arity check_min_arity
parse_expire_commands-Returns name [] make_cmd = ground (arith)
parse_expire_commands-Returns name (a ∷ []) make_cmd = ground (arith)
parse_expire_commands-Returns name (a ∷ b ∷ []) make_cmd = ground (arith)
parse_expire_commands-Returns name (a ∷ b ∷ c ∷ l) make_cmd = ground (arith)

pub parse_select_command-Returns :
    (name : Str) (l : List Str) → Returns (parse_select_command (bulk_strings (name ∷ l)))
unfolding parse_select_command check_arity check_min_arity
parse_select_command-Returns name [] = ground (arith)
parse_select_command-Returns name (a ∷ []) = ground (arith)
parse_select_command-Returns name (a ∷ b ∷ l) = ground (arith)

pub parse_dbsize_command-Returns :
    (name : Str) (l : List Str) → Returns (parse_dbsize_command (bulk_strings (name ∷ l)))
unfolding parse_dbsize_command check_arity check_min_arity
parse_dbsize_command-Returns name [] = ground (arith)
parse_dbsize_command-Returns name (a ∷ l) = ground (arith)

pub parse_flushdb_command-Returns :
    (name : Str) (l : List Str) → Returns (parse_flushdb_command (bulk_strings (name ∷ l)))
unfolding parse_flushdb_command check_arity check_min_arity
parse_flushdb_command-Returns name [] = ground (arith)
parse_flushdb_command-Returns name (a ∷ []) = ground (arith)
parse_flushdb_command-Returns name (a ∷ b ∷ []) = ground (arith)
parse_flushdb_command-Returns name (a ∷ b ∷ c ∷ l) = ground (arith)
