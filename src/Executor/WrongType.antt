-- ===== src/Executor/WrongType.antt =====
-- The commands on a key that holds a value of another type, across executor/string.rs, list.rs and
-- set.rs.
use thesaurus.Prelude.{
  ℕ, ◌≡◌, Bool, true, false, Option, none, some, [], ◌∷◌, arith, Str, err, ◌&&◌, ◌||◌, is_some, leb,
}
use thesaurus.Errors.{wrong_type}
use thesaurus.Command.{Command}
use thesaurus.Store.{Store, StoreValue, str, list, set, peek}
use thesaurus.Store.Lists.{max_capacity, push_inner, push_onto, pop_inner, pop_from, lset_in}
use thesaurus.Store.Lists as StoreLists
use thesaurus.Store.Sets as StoreSets
use thesaurus.Store.Sets.{unwrap_or, add_to, pop_members, remove_from, move_from}
use thesaurus.Store.Strings.{get_string}
use thesaurus.Store.Visible.{get-eq-peek}
use thesaurus.Executor.{Env, reply, store_error}
use thesaurus.Executor.Execute.{execute}
use thesaurus.Executor.Strings
use thesaurus.Executor.Strings.{set_after}
use thesaurus.Executor.Lists
use thesaurus.Executor.Lists.{push_all, pop_reply}
use thesaurus.Executor.Sets

-- the types of values
pub data Kind : Type 0 where
  string_kind list_kind set_kind : Kind

-- a value of another type
abbrev pub is_other : Kind → Option StoreValue → Bool
is_other kind none = false
is_other string_kind (some (str t)) = false
is_other list_kind (some (list l)) = false
is_other set_kind (some (set m)) = false
is_other kind (some v) = true

-- What the command reads first at a key is of another type. This is not for the commands that take a
-- value of any type, nor for GETDEL, which deletes what it finds; a push has an element, and the
-- buffer of a pop can be allocated. SMOVE reads its second key where it finds a value at the first.
abbrev pub is_mismatched : Env → Command → Store → Bool
is_mismatched env (Command.get key) s = is_other string_kind (peek key (env.instant 0) s)
is_mismatched env (Command.set key value condition expiry get) s =
    is_other string_kind (peek key (env.instant 0) s)
is_mismatched env (Command.strlen key) s = is_other string_kind (peek key (env.instant 0) s)
is_mismatched env (Command.digest key) s = is_other string_kind (peek key (env.instant 0) s)
is_mismatched env (Command.lpush key (x ∷ elements)) s =
    is_other list_kind (peek key (env.instant 0) s)
is_mismatched env (Command.rpush key (x ∷ elements)) s =
    is_other list_kind (peek key (env.instant 0) s)
is_mismatched env (Command.lpushx key (x ∷ elements)) s =
    is_other list_kind (peek key (env.instant 0) s)
is_mismatched env (Command.rpushx key (x ∷ elements)) s =
    is_other list_kind (peek key (env.instant 0) s)
is_mismatched env (Command.lpop key count) s =
    leb (unwrap_or count 1) max_capacity && is_other list_kind (peek key (env.instant 0) s)
is_mismatched env (Command.rpop key count) s =
    leb (unwrap_or count 1) max_capacity && is_other list_kind (peek key (env.instant 0) s)
is_mismatched env (Command.lset key index element) s =
    is_other list_kind (peek key (env.instant 0) s)
is_mismatched env (Command.llen key) s = is_other list_kind (peek key (env.instant 0) s)
is_mismatched env (Command.lindex key index) s = is_other list_kind (peek key (env.instant 0) s)
is_mismatched env (Command.lrange key start stop) s =
    is_other list_kind (peek key (env.instant 0) s)
is_mismatched env (Command.sadd key members) s = is_other set_kind (peek key (env.instant 0) s)
is_mismatched env (Command.smembers key) s = is_other set_kind (peek key (env.instant 0) s)
is_mismatched env (Command.sismember key member) s = is_other set_kind (peek key (env.instant 0) s)
is_mismatched env (Command.smismember key members) s =
    is_other set_kind (peek key (env.instant 0) s)
is_mismatched env (Command.srandmember key count) s = is_other set_kind (peek key (env.instant 0) s)
is_mismatched env (Command.scard key) s = is_other set_kind (peek key (env.instant 0) s)
is_mismatched env (Command.spop key count) s = is_other set_kind (peek key (env.instant 0) s)
is_mismatched env (Command.srem key members) s = is_other set_kind (peek key (env.instant 0) s)
is_mismatched env (Command.smove source destination member) s =
    is_other set_kind (peek source (env.instant 0) s)
    || is_some (peek source (env.instant 0) s)
      && is_other set_kind (peek destination (env.instant 1) s)
is_mismatched env _ s = false

not_a_string :
    (key : Str) (now : ℕ) (s : Store)
    → is_other string_kind (peek key now s) ≡ true
    → get_string key now s ≡ err wrong_type
unfolding get_string
not_a_string key now s h = rw (get-eq-peek key now s) (ground arith)

-- A command that needs a string, a list or a set, on a key where it finds a value of another type,
-- replies with the error WRONGTYPE and changes nothing; so does SMOVE where it finds a value at its
-- source and one of another type at its destination. GETDEL is left out; a push must have an element,
-- and the buffer of a pop be one that can be allocated.
pub execute_mismatched :
    (env : Env) (cmd : Command) (s : Store)
    → is_mismatched env cmd s ≡ true
    → execute env cmd s ≡ (reply (store_error wrong_type), s)
execute_mismatched env (Command.get key) s h =
    unfold execute Strings.get in ground (arith, not_a_string key (env.instant 0) s h)
execute_mismatched env (Command.set key value condition expiry prior) s h =
    unfold execute Strings.set set_after in ground (arith, not_a_string key (env.instant 0) s h)
execute_mismatched env (Command.strlen key) s h =
    unfold execute Strings.strlen in ground (arith, not_a_string key (env.instant 0) s h)
execute_mismatched env (Command.digest key) s h =
    unfold execute Strings.digest in ground (arith, not_a_string key (env.instant 0) s h)
execute_mismatched env (Command.lpush key (x ∷ elements)) s h =
    unfold execute Lists.lpush push_all StoreLists.lpush push_inner push_onto in ground arith
execute_mismatched env (Command.rpush key (x ∷ elements)) s h =
    unfold execute Lists.rpush push_all StoreLists.rpush push_inner push_onto in ground arith
execute_mismatched env (Command.lpushx key (x ∷ elements)) s h =
    unfold execute Lists.lpushx push_all StoreLists.lpushx push_inner push_onto in ground arith
execute_mismatched env (Command.rpushx key (x ∷ elements)) s h =
    unfold execute Lists.rpushx push_all StoreLists.rpushx push_inner push_onto in ground arith
execute_mismatched env (Command.lpop key count) s h =
    unfold execute Lists.lpop StoreLists.lpop pop_reply pop_inner pop_from in ground arith
execute_mismatched env (Command.rpop key count) s h =
    unfold execute Lists.rpop StoreLists.rpop pop_reply pop_inner pop_from in ground arith
execute_mismatched env (Command.lset key index element) s h =
    unfold execute Lists.lset StoreLists.lset lset_in in ground arith
execute_mismatched env (Command.llen key) s h =
    unfold execute Lists.llen StoreLists.llen in ground arith
execute_mismatched env (Command.lindex key index) s h =
    unfold execute Lists.lindex StoreLists.lindex in ground arith
execute_mismatched env (Command.lrange key start stop) s h =
    unfold execute Lists.lrange StoreLists.lrange in ground arith
execute_mismatched env (Command.sadd key members) s h =
    unfold execute Sets.sadd StoreSets.sadd add_to in ground arith
execute_mismatched env (Command.smembers key) s h =
    unfold execute Sets.smembers StoreSets.smembers in ground arith
execute_mismatched env (Command.sismember key member) s h =
    unfold execute Sets.sismember StoreSets.sismember StoreSets.smembers in ground arith
execute_mismatched env (Command.smismember key members) s h =
    unfold execute Sets.smismember StoreSets.smismember in ground arith
execute_mismatched env (Command.srandmember key count) s h =
    unfold execute Sets.srandmember StoreSets.srandmember in ground arith
execute_mismatched env (Command.scard key) s h =
    unfold execute Sets.scard StoreSets.scard in ground arith
execute_mismatched env (Command.spop key count) s h =
    unfold execute Sets.spop StoreSets.spop pop_members in ground arith
execute_mismatched env (Command.srem key members) s h =
    unfold execute Sets.srem StoreSets.srem remove_from in ground arith
execute_mismatched env (Command.smove source destination member) s h =
    unfold execute Sets.smove StoreSets.smove move_from in ground arith
execute_mismatched env (Command.ping message) s h = cc
execute_mismatched env (Command.delete keys) s h = cc
execute_mismatched env (Command.get_del key) s h = cc
execute_mismatched env (Command.exists keys) s h = cc
execute_mismatched env (Command.mget keys) s h = cc
execute_mismatched env (Command.mset items) s h = cc
execute_mismatched env (Command.lpush key []) s h = cc
execute_mismatched env (Command.rpush key []) s h = cc
execute_mismatched env (Command.lpushx key []) s h = cc
execute_mismatched env (Command.rpushx key []) s h = cc
execute_mismatched env (Command.ttl key) s h = cc
execute_mismatched env (Command.pttl key) s h = cc
execute_mismatched env (Command.expire_time key) s h = cc
execute_mismatched env (Command.pexpire_time key) s h = cc
execute_mismatched env (Command.persist key) s h = cc
execute_mismatched env (Command.expire key n) s h = cc
execute_mismatched env (Command.pexpire key n) s h = cc
execute_mismatched env (Command.expire_at key n) s h = cc
execute_mismatched env (Command.pexpire_at key n) s h = cc
execute_mismatched env (Command.keys pattern) s h = cc
execute_mismatched env (Command.select index) s h = cc
execute_mismatched env Command.db_size s h = cc
execute_mismatched env (Command.flush_db mode) s h = cc
