-- ===== src/Command/Parse.antt =====
-- `Command::from_resp2`: the checks of the frame, and the match on the command's name.
use thesaurus.Prelude.{
  some, List, [], ◌∷◌, Str, codes, str_eq, Result, ok, err, ◌>>=◌, done, if◌then◌else◌,
}
use thesaurus.Resp2.{RespValue, bulk_string, array, Items, nil, cons}
use thesaurus.Command.{
  HandlerError, unexpected_type, unknown_command, an_array, a_bulk_string, Command,
}
use thesaurus.Command.Checked
use thesaurus.Command.Checked.{arg}
use thesaurus.Command.Arguments.{
  Parsed, parse_ping_command, parse_key_command, parse_keys_command,
  parse_key_with_elements_command, parse_pop_command, parse_expire_commands, parse_select_command,
  parse_dbsize_command, parse_flushdb_command, parse_lset_command, parse_lindex_command,
  parse_lrange_command, parse_smove_command, parse_sismember_command, parse_smismember_command,
  parse_srandmember_command,
}
use thesaurus.Command.StringArguments.{parse_set_command, parse_mset_command}

-- The match on `first_arg`, with the arguments, the name in front.
unfoldable pub parse_by_name : Str → Items → Parsed
unfolding str_eq parse_ping_command parse_key_command parse_keys_command
    parse_key_with_elements_command parse_pop_command parse_expire_commands parse_select_command
    parse_dbsize_command parse_flushdb_command parse_set_command parse_mset_command
    parse_lset_command parse_lindex_command parse_lrange_command parse_smove_command
    parse_sismember_command parse_smismember_command parse_srandmember_command
parse_by_name name args =
    if str_eq name (codes "PING")
    then parse_ping_command args
    else if str_eq name (codes "GET")
    then parse_key_command args Command.get
    else if str_eq name (codes "SET")
    then parse_set_command args
    else if str_eq name (codes "DEL")
    then parse_keys_command args Command.delete
    else if str_eq name (codes "GETDEL")
    then parse_key_command args Command.get_del
    else if str_eq name (codes "EXISTS")
    then parse_keys_command args Command.exists
    else if str_eq name (codes "MGET")
    then parse_keys_command args Command.mget
    else if str_eq name (codes "MSET")
    then parse_mset_command args
    else if str_eq name (codes "STRLEN")
    then parse_key_command args Command.strlen
    else if str_eq name (codes "LPUSH")
    then parse_key_with_elements_command args Command.lpush
    else if str_eq name (codes "RPUSH")
    then parse_key_with_elements_command args Command.rpush
    else if str_eq name (codes "LPUSHX")
    then parse_key_with_elements_command args Command.lpushx
    else if str_eq name (codes "RPUSHX")
    then parse_key_with_elements_command args Command.rpushx
    else if str_eq name (codes "LPOP")
    then parse_pop_command args Command.lpop
    else if str_eq name (codes "RPOP")
    then parse_pop_command args Command.rpop
    else if str_eq name (codes "LSET")
    then parse_lset_command args
    else if str_eq name (codes "LLEN")
    then parse_key_command args Command.llen
    else if str_eq name (codes "LINDEX")
    then parse_lindex_command args
    else if str_eq name (codes "LRANGE")
    then parse_lrange_command args
    else if str_eq name (codes "SADD")
    then parse_key_with_elements_command args Command.sadd
    else if str_eq name (codes "SMEMBERS")
    then parse_key_command args Command.smembers
    else if str_eq name (codes "SISMEMBER")
    then parse_sismember_command args
    else if str_eq name (codes "SMISMEMBER")
    then parse_smismember_command args
    else if str_eq name (codes "SRANDMEMBER")
    then parse_srandmember_command args
    else if str_eq name (codes "SCARD")
    then parse_key_command args Command.scard
    else if str_eq name (codes "SMOVE")
    then parse_smove_command args
    else if str_eq name (codes "SPOP")
    then parse_pop_command args Command.spop
    else if str_eq name (codes "SREM")
    then parse_key_with_elements_command args Command.srem
    else if str_eq name (codes "TTL")
    then parse_key_command args Command.ttl
    else if str_eq name (codes "PTTL")
    then parse_key_command args Command.pttl
    else if str_eq name (codes "EXPIRETIME")
    then parse_key_command args Command.expire_time
    else if str_eq name (codes "PEXPIRETIME")
    then parse_key_command args Command.pexpire_time
    else if str_eq name (codes "PERSIST")
    then parse_key_command args Command.persist
    else if str_eq name (codes "EXPIRE")
    then parse_expire_commands args Command.expire
    else if str_eq name (codes "PEXPIRE")
    then parse_expire_commands args Command.pexpire
    else if str_eq name (codes "EXPIREAT")
    then parse_expire_commands args Command.expire_at
    else if str_eq name (codes "PEXPIREAT")
    then parse_expire_commands args Command.pexpire_at
    else if str_eq name (codes "KEYS")
    then parse_key_command args Command.keys
    else if str_eq name (codes "DIGEST")
    then parse_key_command args Command.digest
    else if str_eq name (codes "SELECT")
    then parse_select_command args
    else if str_eq name (codes "DBSIZE")
    then parse_dbsize_command args
    else if str_eq name (codes "FLUSHDB")
    then parse_flushdb_command args
    else done (err (unknown_command name))

-- The texts of the arguments, or the first argument that is no bulk string.
unfoldable pub texts : Items → Result HandlerError (List Str)
texts nil = ok []
texts (cons (bulk_string (some s)) vs) = texts vs >>= λ l. ok (s ∷ l)
texts (cons v vs) = err (unexpected_type a_bulk_string v)

-- Behind the check of the arguments; `&args[0]` of an empty array panics.
unfoldable pub parse_texts : Result HandlerError (List Str) → Items → Parsed
unfolding parse_by_name
parse_texts (err e) args = done (err e)
parse_texts (ok _) args = Checked.◌>>=◌ (arg args 0) (λ name. parse_by_name name args)

unfoldable pub from_resp2 : RespValue → Parsed
unfolding texts parse_texts
from_resp2 (array vs) = parse_texts (texts vs) vs
from_resp2 v = done (err (unexpected_type an_array v))
