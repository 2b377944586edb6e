-- ===== src/Server/Entries.antt =====
-- The entry that handler.rs appends for a request, read back by the replay of aof.rs.
pub mod Expiring
use thesaurus.Prelude.{
  ℕ, ◌+◌, ◌*◌, ◌≤◌, ◌≡◌, ◌⊎◌, refl, ap, ◌∙◌, inl, inr, Bool, true, false, some, arith, Str, ok,
  done,
}
use thesaurus.Decimal.{max_u64}
use thesaurus.Resp2.{RespValue, bulk_string, encode}
use thesaurus.Resp2.RoundTrip.{IsEncodable}
use thesaurus.Command.{Command}
use thesaurus.Command.Parse.{from_resp2}
use thesaurus.Store.{Store}
use thesaurus.Executor.{Env, reply}
use thesaurus.Executor.Execute.{execute}
use thesaurus.Server.Aof.{apply_frame, survives}
use thesaurus.Server.Handler.{log_entry, now_ms}

-- not EXPIRE or PEXPIRE, whose entry is another command
abbrev pub is_relative : Command → Bool
is_relative (Command.expire _ _) = true
is_relative (Command.pexpire _ _) = true
is_relative _ = false

log_entry_lem :
    (at : ℕ) (cmd : Command) (frame : RespValue)
    → is_relative cmd ≡ false
    → log_entry at cmd frame ≡ encode frame
unfolding log_entry
log_entry_lem at (Command.ping message) frame h = refl
log_entry_lem at (Command.get key) frame h = refl
log_entry_lem at (Command.set key value condition expiry get) frame h = refl
log_entry_lem at (Command.delete keys) frame h = refl
log_entry_lem at (Command.get_del key) frame h = refl
log_entry_lem at (Command.exists keys) frame h = refl
log_entry_lem at (Command.mget keys) frame h = refl
log_entry_lem at (Command.mset items) frame h = refl
log_entry_lem at (Command.strlen key) frame h = refl
log_entry_lem at (Command.lpush key elements) frame h = refl
log_entry_lem at (Command.rpush key elements) frame h = refl
log_entry_lem at (Command.lpushx key elements) frame h = refl
log_entry_lem at (Command.rpushx key elements) frame h = refl
log_entry_lem at (Command.lpop key count) frame h = refl
log_entry_lem at (Command.rpop key count) frame h = refl
log_entry_lem at (Command.lset key index element) frame h = refl
log_entry_lem at (Command.llen key) frame h = refl
log_entry_lem at (Command.lindex key index) frame h = refl
log_entry_lem at (Command.lrange key start stop) frame h = refl
log_entry_lem at (Command.sadd key members) frame h = refl
log_entry_lem at (Command.smembers key) frame h = refl
log_entry_lem at (Command.sismember key member) frame h = refl
log_entry_lem at (Command.smismember key members) frame h = refl
log_entry_lem at (Command.srandmember key count) frame h = refl
log_entry_lem at (Command.scard key) frame h = refl
log_entry_lem at (Command.smove source destination member) frame h = refl
log_entry_lem at (Command.spop key count) frame h = refl
log_entry_lem at (Command.srem key members) frame h = refl
log_entry_lem at (Command.ttl key) frame h = refl
log_entry_lem at (Command.pttl key) frame h = refl
log_entry_lem at (Command.expire_time key) frame h = refl
log_entry_lem at (Command.pexpire_time key) frame h = refl
log_entry_lem at (Command.persist key) frame h = refl
log_entry_lem at (Command.expire key seconds) frame h = ground arith
log_entry_lem at (Command.pexpire key milliseconds) frame h = ground arith
log_entry_lem at (Command.expire_at key deadline_secs) frame h = refl
log_entry_lem at (Command.pexpire_at key deadline_ms) frame h = refl
log_entry_lem at (Command.keys pattern) frame h = refl
log_entry_lem at (Command.digest key) frame h = refl
log_entry_lem at (Command.select index) frame h = refl
log_entry_lem at Command.db_size frame h = refl
log_entry_lem at (Command.flush_db mode) frame h = refl

-- For the two commands with a relative expiry, at the time `at`: it is not zero, the deadline in
-- milliseconds is a `u64`, and the protocol can carry the key.
abbrev pub IsLoggable : ℕ → Command → Type 0
IsLoggable at (Command.expire key seconds) =
    (1 ≤ seconds) × (now_ms at + seconds * 1000 ≤ max_u64) × IsEncodable (bulk_string (some key))
IsLoggable at (Command.pexpire key milliseconds) =
    (1 ≤ milliseconds) × (now_ms at + milliseconds ≤ max_u64) × IsEncodable (bulk_string (some key))
IsLoggable at _ = Unit

-- The entry is a value that the replay applies, for some readings, as the request was executed.
abbrev pub IsReplayed : Str → Store → Store → Type 0
IsReplayed entry s s' =
    (v : RespValue) × (env : Env) × (entry ≡ encode v)
    × IsEncodable v
    × (apply_frame env (from_resp2 v) s ≡ some s')

pub plain_lem :
    (env : Env) (at : ℕ) (frame : RespValue) (cmd : Command) (r : RespValue) (s s' : Store)
    → is_relative cmd ≡ false
    → IsEncodable frame
    → from_resp2 frame ≡ done (ok cmd)
    → execute env cmd s ≡ (reply r, s')
    → IsReplayed (log_entry at cmd frame) s s'
unfolding apply_frame
plain_lem env at frame cmd r s s' n k f x =
    (frame, env, log_entry_lem at cmd frame n, k, ap (λ p. apply_frame env p s) f ∙ ap survives x)

pub relative-cases :
    (cmd : Command)
    → (is_relative cmd ≡ false)
      ⊎ ((key : Str) × (n : ℕ) × ((cmd ≡ Command.expire key n) ⊎ (cmd ≡ Command.pexpire key n)))
relative-cases (Command.ping message) = inl refl
relative-cases (Command.get key) = inl refl
relative-cases (Command.set key value condition expiry get) = inl refl
relative-cases (Command.delete keys) = inl refl
relative-cases (Command.get_del key) = inl refl
relative-cases (Command.exists keys) = inl refl
relative-cases (Command.mget keys) = inl refl
relative-cases (Command.mset items) = inl refl
relative-cases (Command.strlen key) = inl refl
relative-cases (Command.lpush key elements) = inl refl
relative-cases (Command.rpush key elements) = inl refl
relative-cases (Command.lpushx key elements) = inl refl
relative-cases (Command.rpushx key elements) = inl refl
relative-cases (Command.lpop key count) = inl refl
relative-cases (Command.rpop key count) = inl refl
relative-cases (Command.lset key index element) = inl refl
relative-cases (Command.llen key) = inl refl
relative-cases (Command.lindex key index) = inl refl
relative-cases (Command.lrange key start stop) = inl refl
relative-cases (Command.sadd key members) = inl refl
relative-cases (Command.smembers key) = inl refl
relative-cases (Command.sismember key member) = inl refl
relative-cases (Command.smismember key members) = inl refl
relative-cases (Command.srandmember key count) = inl refl
relative-cases (Command.scard key) = inl refl
relative-cases (Command.smove source destination member) = inl refl
relative-cases (Command.spop key count) = inl refl
relative-cases (Command.srem key members) = inl refl
relative-cases (Command.ttl key) = inl refl
relative-cases (Command.pttl key) = inl refl
relative-cases (Command.expire_time key) = inl refl
relative-cases (Command.pexpire_time key) = inl refl
relative-cases (Command.persist key) = inl refl
relative-cases (Command.expire key seconds) = inr (key, seconds, inl refl)
relative-cases (Command.pexpire key milliseconds) = inr (key, milliseconds, inr refl)
relative-cases (Command.expire_at key deadline_secs) = inl refl
relative-cases (Command.pexpire_at key deadline_ms) = inl refl
relative-cases (Command.keys pattern) = inl refl
relative-cases (Command.digest key) = inl refl
relative-cases (Command.select index) = inl refl
relative-cases Command.db_size = inl refl
relative-cases (Command.flush_db mode) = inl refl
