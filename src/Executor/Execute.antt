-- ===== src/Executor/Execute.antt =====
-- `Executor::execute` of crates/thesaurus/src/executor/mod.rs.
use thesaurus.Resp2.{RespValue}
use thesaurus.Command.{Command}
use thesaurus.Store.{Store}
use thesaurus.Executor.{Env, Response, reply}
use thesaurus.Executor.Keyspace
use thesaurus.Executor.Strings
use thesaurus.Executor.Lists
use thesaurus.Executor.Sets

-- a handler that reads, and one that writes and never panics
abbrev pub reads : (Store → RespValue) → Store → Response × Store
reads f s = (reply (f s), s)

abbrev pub writes : (Store → RespValue × Store) → Store → Response × Store
writes f s = let (v, s') = f s in (reply v, s')

unfoldable pub execute : Env → Command → Store → Response × Store
execute env (Command.ping message) = reads (λ s. Keyspace.ping message)
execute env (Command.get key) = reads (Strings.get env key)
execute env (Command.set key value condition expiry get) =
    Strings.set env key value condition expiry get
execute env (Command.delete keys) = writes (Keyspace.delete keys)
execute env (Command.get_del key) = writes (Strings.get_del env key)
execute env (Command.exists keys) = reads (Keyspace.exists env keys)
execute env (Command.mget keys) = reads (Strings.mget env keys)
execute env (Command.mset items) = writes (Strings.mset items)
execute env (Command.strlen key) = reads (Strings.strlen env key)
execute env (Command.lpush key elements) = writes (Lists.lpush env key elements)
execute env (Command.rpush key elements) = writes (Lists.rpush env key elements)
execute env (Command.lpushx key elements) = writes (Lists.lpushx env key elements)
execute env (Command.rpushx key elements) = writes (Lists.rpushx env key elements)
execute env (Command.lpop key count) = Lists.lpop env key count
execute env (Command.rpop key count) = Lists.rpop env key count
execute env (Command.lset key index element) = writes (Lists.lset env key index element)
execute env (Command.llen key) = reads (Lists.llen env key)
execute env (Command.lindex key index) = reads (Lists.lindex env key index)
execute env (Command.lrange key start stop) = reads (Lists.lrange env key start stop)
execute env (Command.sadd key members) = writes (Sets.sadd env key members)
execute env (Command.smembers key) = reads (Sets.smembers env key)
execute env (Command.sismember key member) = reads (Sets.sismember env key member)
execute env (Command.smismember key members) = reads (Sets.smismember env key members)
execute env (Command.srandmember key count) = λ s. (Sets.srandmember env key count s, s)
execute env (Command.scard key) = reads (Sets.scard env key)
execute env (Command.smove source destination member) = Sets.smove env source destination member
execute env (Command.spop key count) = Sets.spop env key count
execute env (Command.srem key members) = writes (Sets.srem env key members)
execute env (Command.ttl key) = reads (Keyspace.ttl env key)
execute env (Command.pttl key) = reads (Keyspace.pttl env key)
execute env (Command.expire_time key) = reads (Keyspace.expire_time env key)
execute env (Command.pexpire_time key) = reads (Keyspace.pexpire_time env key)
execute env (Command.persist key) = writes (Keyspace.persist key)
execute env (Command.expire key seconds) = writes (Keyspace.expire env key seconds)
execute env (Command.pexpire key milliseconds) = writes (Keyspace.pexpire env key milliseconds)
execute env (Command.expire_at key deadline_secs) = Keyspace.expire_at env key deadline_secs
execute env (Command.pexpire_at key deadline_ms) = Keyspace.pexpire_at env key deadline_ms
execute env (Command.keys pattern) = reads (Keyspace.keys env pattern)
execute env (Command.digest key) = reads (Strings.digest env key)
execute env (Command.select index) = reads (λ s. Keyspace.select index)
execute env Command.db_size = reads Keyspace.db_size
execute env (Command.flush_db mode) = writes (Keyspace.flush_db env mode)
