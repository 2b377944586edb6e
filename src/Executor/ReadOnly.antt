-- ===== src/Executor/ReadOnly.antt =====
-- Which commands change the store: `is_write` of command/mod.rs against `Executor::execute`.
use thesaurus.Prelude.{◌≡◌, refl, Bool, true, false, arith, ◌||◌}
use thesaurus.Command.{Command, is_write}
use thesaurus.Store.{Store}
use thesaurus.Executor.{Env}
use thesaurus.Executor.Execute.{execute}

-- LSET
abbrev pub is_lset : Command → Bool
is_lset (Command.lset _ _ _) = true
is_lset _ = false

-- A command that is not a write for the append-only file leaves the store as it is, with the one
-- exception of LSET.
pub execute_reads :
    (env : Env) (cmd : Command) (s : Store)
    → (is_write cmd || is_lset cmd) ≡ false
    → (execute env cmd s).1 ≡ s
unfolding execute is_write
execute_reads env (Command.ping message) s h = refl
execute_reads env (Command.get key) s h = refl
execute_reads env (Command.set key value condition expiry get) s h = ground arith
execute_reads env (Command.delete keys) s h = ground arith
execute_reads env (Command.get_del key) s h = ground arith
execute_reads env (Command.exists keys) s h = refl
execute_reads env (Command.mget keys) s h = refl
execute_reads env (Command.mset items) s h = ground arith
execute_reads env (Command.strlen key) s h = refl
execute_reads env (Command.lpush key elements) s h = ground arith
execute_reads env (Command.rpush key elements) s h = ground arith
execute_reads env (Command.lpushx key elements) s h = ground arith
execute_reads env (Command.rpushx key elements) s h = ground arith
execute_reads env (Command.lpop key count) s h = ground arith
execute_reads env (Command.rpop key count) s h = ground arith
execute_reads env (Command.lset key index element) s h = ground arith
execute_reads env (Command.llen key) s h = refl
execute_reads env (Command.lindex key index) s h = refl
execute_reads env (Command.lrange key start stop) s h = refl
execute_reads env (Command.sadd key members) s h = ground arith
execute_reads env (Command.smembers key) s h = refl
execute_reads env (Command.sismember key member) s h = refl
execute_reads env (Command.smismember key members) s h = refl
execute_reads env (Command.srandmember key count) s h = refl
execute_reads env (Command.scard key) s h = refl
execute_reads env (Command.smove source destination member) s h = ground arith
execute_reads env (Command.spop key count) s h = ground arith
execute_reads env (Command.srem key members) s h = ground arith
execute_reads env (Command.ttl key) s h = refl
execute_reads env (Command.pttl key) s h = refl
execute_reads env (Command.expire_time key) s h = refl
execute_reads env (Command.pexpire_time key) s h = refl
execute_reads env (Command.persist key) s h = ground arith
execute_reads env (Command.expire key seconds) s h = ground arith
execute_reads env (Command.pexpire key milliseconds) s h = ground arith
execute_reads env (Command.expire_at key deadline_secs) s h = ground arith
execute_reads env (Command.pexpire_at key deadline_ms) s h = ground arith
execute_reads env (Command.keys pattern) s h = refl
execute_reads env (Command.digest key) s h = refl
execute_reads env (Command.select index) s h = refl
execute_reads env Command.db_size s h = refl
execute_reads env (Command.flush_db mode) s h = ground arith
