-- ===== src/Command/RoundTrip.antt =====
-- Every command is read back from the request that a client sends for it.
use thesaurus.Prelude.{
  ◌≡◌, refl, ◌∙◌, none, some, List, [], ◌∷◌, arith, Str, codes, ok, done, str_eq,
}
use thesaurus.Decimal.{max_u64}
use thesaurus.Decimal.RoundTrip.{parse_unsigned-print, parse_i64-print_ℤ}
use thesaurus.Resp2.{array, bulk_strings}
use thesaurus.Command.{Command, sync, async}
use thesaurus.Command.Arguments.{
  check_arity, check_min_arity, parse_ping_command, parse_key_command, parse_keys_command,
  parse_key_with_elements_command, parse_pop_command, parse_expire_commands, parse_select_command,
  parse_dbsize_command, parse_flushdb_command, parse_lset_command, parse_lindex_command,
  parse_lrange_command, parse_smove_command, parse_sismember_command, parse_smismember_command,
  parse_srandmember_command,
}
use thesaurus.Command.Parse.{from_resp2, texts, parse_texts, parse_by_name}
use thesaurus.Command.Requests.{request_name, request_args, IsSendable}
use thesaurus.Command.Options.{
  count-bulk_strings, all_texts-bulk_strings, parse_set_command_lem, parse_mset_command_lem,
}

texts-bulk_strings : (l : List Str) → texts (bulk_strings l) ≡ ok l
unfolding texts
texts-bulk_strings [] = refl
texts-bulk_strings (s ∷ l) = rw (texts-bulk_strings l)

pub from_resp2-bulk_strings :
    (name : Str) (l : List Str)
    → from_resp2 (array (bulk_strings (name ∷ l))) ≡ parse_by_name name (bulk_strings (name ∷ l))
unfolding from_resp2
from_resp2-bulk_strings name l = rw (texts-bulk_strings (name ∷ l), parse_texts)

parse_by_name_lem :
    (cmd : Command)
    → IsSendable cmd
    → parse_by_name (request_name cmd) (bulk_strings (request_name cmd ∷ request_args cmd))
      ≡ done (ok cmd)
unfolding parse_by_name parse_ping_command parse_key_command parse_keys_command
    parse_key_with_elements_command parse_pop_command parse_expire_commands parse_select_command
    parse_dbsize_command parse_flushdb_command parse_lset_command parse_lindex_command
    parse_lrange_command parse_smove_command parse_sismember_command parse_smismember_command
    parse_srandmember_command check_arity check_min_arity str_eq
parse_by_name_lem (Command.get key) h = refl
parse_by_name_lem (Command.get_del key) h = refl
parse_by_name_lem (Command.strlen key) h = refl
parse_by_name_lem (Command.llen key) h = refl
parse_by_name_lem (Command.smembers key) h = refl
parse_by_name_lem (Command.scard key) h = refl
parse_by_name_lem (Command.ttl key) h = refl
parse_by_name_lem (Command.pttl key) h = refl
parse_by_name_lem (Command.expire_time key) h = refl
parse_by_name_lem (Command.pexpire_time key) h = refl
parse_by_name_lem (Command.persist key) h = refl
parse_by_name_lem (Command.keys key) h = refl
parse_by_name_lem (Command.digest key) h = refl
parse_by_name_lem (Command.delete keys) h =
    ground (arith, all_texts-bulk_strings keys, count-bulk_strings keys)
parse_by_name_lem (Command.exists keys) h =
    ground (arith, all_texts-bulk_strings keys, count-bulk_strings keys)
parse_by_name_lem (Command.mget keys) h =
    ground (arith, all_texts-bulk_strings keys, count-bulk_strings keys)
parse_by_name_lem (Command.lpush key elements) h =
    ground (arith, all_texts-bulk_strings elements, count-bulk_strings elements)
parse_by_name_lem (Command.rpush key elements) h =
    ground (arith, all_texts-bulk_strings elements, count-bulk_strings elements)
parse_by_name_lem (Command.lpushx key elements) h =
    ground (arith, all_texts-bulk_strings elements, count-bulk_strings elements)
parse_by_name_lem (Command.rpushx key elements) h =
    ground (arith, all_texts-bulk_strings elements, count-bulk_strings elements)
parse_by_name_lem (Command.sadd key elements) h =
    ground (arith, all_texts-bulk_strings elements, count-bulk_strings elements)
parse_by_name_lem (Command.smismember key elements) h =
    ground (arith, all_texts-bulk_strings elements, count-bulk_strings elements)
parse_by_name_lem (Command.srem key elements) h =
    ground (arith, all_texts-bulk_strings elements, count-bulk_strings elements)
parse_by_name_lem (Command.lpop key none) h = refl
parse_by_name_lem (Command.lpop key (some count)) h = rw (parse_unsigned-print max_u64 count h)
parse_by_name_lem (Command.rpop key none) h = refl
parse_by_name_lem (Command.rpop key (some count)) h = rw (parse_unsigned-print max_u64 count h)
parse_by_name_lem (Command.spop key none) h = refl
parse_by_name_lem (Command.spop key (some count)) h = rw (parse_unsigned-print max_u64 count h)
parse_by_name_lem (Command.srandmember key none) h = refl
parse_by_name_lem (Command.srandmember key (some count)) h = rw (parse_i64-print_ℤ count h)
parse_by_name_lem (Command.ping none) h = refl
parse_by_name_lem (Command.ping (some message)) h = refl
parse_by_name_lem (Command.lset key index element) h = rw (parse_i64-print_ℤ index h)
parse_by_name_lem (Command.lindex key index) h = rw (parse_i64-print_ℤ index h)
parse_by_name_lem (Command.lrange key start stop) h =
    rw (parse_i64-print_ℤ start h.0, parse_i64-print_ℤ stop h.1)
parse_by_name_lem (Command.sismember key member) h = refl
parse_by_name_lem (Command.smove source destination member) h = refl
parse_by_name_lem (Command.expire key n) h = rw (parse_unsigned-print max_u64 n h)
parse_by_name_lem (Command.pexpire key n) h = rw (parse_unsigned-print max_u64 n h)
parse_by_name_lem (Command.expire_at key n) h = rw (parse_unsigned-print max_u64 n h)
parse_by_name_lem (Command.pexpire_at key n) h = rw (parse_unsigned-print max_u64 n h)
parse_by_name_lem (Command.select index) h = rw (parse_unsigned-print 255 index h)
parse_by_name_lem Command.db_size h = refl
parse_by_name_lem (Command.flush_db none) h = refl
parse_by_name_lem (Command.flush_db (some sync)) h = refl
parse_by_name_lem (Command.flush_db (some async)) h = refl
parse_by_name_lem (Command.mset items) h = parse_mset_command_lem (codes "MSET") items h
parse_by_name_lem (Command.set key value condition expiry get) h =
    parse_set_command_lem key value condition get expiry h.0 h.1

-- The request for a command, with numbers in range and no empty list of arguments, is parsed to that
-- command; for SET, with any combination of options, a digest in the sixteen hexadecimal digits that
-- DIGEST replies with.
pub from_resp2_lem :
    (cmd : Command)
    → IsSendable cmd
    → from_resp2 (array (bulk_strings (request_name cmd ∷ request_args cmd))) ≡ done (ok cmd)
from_resp2_lem cmd h =
    from_resp2-bulk_strings (request_name cmd) (request_args cmd) ∙ parse_by_name_lem cmd h
