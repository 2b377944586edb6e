-- ===== src/Executor/Keyspace.antt =====
-- The handlers of executor/mod.rs: keys, expiry, database.
use thesaurus.Prelude.{
  ℕ, suc, ◌+◌, ◌-◌, ◌*◌, ◌/◌, ◌%◌, ◌^◌, ◌==◌, Bool, true, false, Option, none, some, List, [], ◌∷◌,
  Str, codes, leb, if◌then◌else◌, ℤ, pos, negsuc,
}
use thesaurus.Resp2.{RespValue, simple_string, simple_error, integer, bulk_string}
use thesaurus.Command.{FlushMode, sync, async}
use thesaurus.Store
use thesaurus.Store.{Store}
use thesaurus.Executor.{
  Env, Response, reply, panic, as_i64, flag, nanos_per_sec, nanos_per_milli, bulk_array,
  checked_add, unix_secs_to_instant, unix_ms_to_instant,
}

unfoldable pub ping : Option Str → RespValue
ping none = simple_string (codes "PONG")
ping (some msg) = bulk_string (some msg)

abbrev pub one_if : Bool → ℕ
one_if true = 1
one_if false = 0

-- the sum over the keys, each deleted in turn
unfoldable pub delete_all : List Str → Store → ℕ × Store
unfolding Store.delete
delete_all [] s = (0, s)
delete_all (key ∷ keys) s =
    let (found, s') = Store.delete key s in
    let (n, s'') = delete_all keys s' in (one_if found + n, s'')

unfoldable pub delete : List Str → Store → RespValue × Store
unfolding delete_all
delete keys s = let (n, s') = delete_all keys s in (integer (pos n), s')

-- Each key's test reads the clock anew.
unfoldable pub count_existing : List Str → (ℕ → ℕ) → Store → ℕ
unfolding Store.exists
count_existing [] now s = 0
count_existing (key ∷ keys) now s =
    one_if (Store.exists key (now 0) s) + count_existing keys (λ i. now (suc i)) s

unfoldable pub exists : Env → List Str → Store → RespValue
unfolding count_existing
exists env keys s = integer (pos (count_existing keys env.instant s))

-- `resolve_expiry`; `f` takes the time that remains, in nanoseconds.
unfoldable pub resolve_expiry : Env → Str → (ℕ → ℤ) → Store → RespValue
unfolding Store.get_ttl Store.exists
resolve_expiry env key f s = elim (Store.get_ttl key s) [
  | some instant ↦
      if leb (env.instant 0) instant
      then integer (f (instant - env.instant 0))
      else integer (negsuc 1)
  | none ↦ integer (if Store.exists key (env.instant 0) s then negsuc 0 else negsuc 1)
]

unfoldable pub ttl : Env → Str → Store → RespValue
unfolding resolve_expiry
ttl env key = resolve_expiry env key (λ r. as_i64 (r / nanos_per_sec))

unfoldable pub pttl : Env → Str → Store → RespValue
unfolding resolve_expiry
pttl env key = resolve_expiry env key (λ r. as_i64 (r / nanos_per_milli))

-- The sum of two `i64`s wraps.
unfoldable pub expire_time : Env → Str → Store → RespValue
unfolding resolve_expiry
expire_time env key =
    resolve_expiry env key (λ r. as_i64 (env.system 0 / nanos_per_sec + r / nanos_per_sec))

unfoldable pub pexpire_time : Env → Str → Store → RespValue
unfolding resolve_expiry
pexpire_time env key =
    resolve_expiry env key (λ r. as_i64 (env.system 0 / nanos_per_milli + r / nanos_per_milli))

unfoldable pub persist : Str → Store → RespValue × Store
unfolding Store.persist
persist key s = let (removed, s') = Store.persist key s in (integer (flag removed), s')

-- `RespValue::Integer(self.store.set_ttl(key, deadline) as i64)`
abbrev pub set_ttl : Str → ℕ → Store → RespValue × Store
set_ttl key deadline s =
    let (found, s') = Store.set_ttl key deadline s in (integer (flag found), s')

abbrev pub set_ttl_or_error : Str → Option ℕ → Store → RespValue × Store
set_ttl_or_error key none s =
    (simple_error (codes "ERR invalid expire time in 'expire' command"), s)
set_ttl_or_error key (some deadline) s = set_ttl key deadline s

unfoldable pub expire : Env → Str → ℕ → Store → RespValue × Store
unfolding Store.set_ttl
expire env key seconds =
    set_ttl_or_error key (checked_add env (env.instant 0) (seconds * nanos_per_sec))

unfoldable pub pexpire : Env → Str → ℕ → Store → RespValue × Store
unfolding Store.set_ttl
pexpire env key milliseconds =
    set_ttl_or_error key (checked_add env (env.instant 0) (milliseconds * nanos_per_milli))

abbrev pub set_ttl_or_panic : Str → Option ℕ → Store → Response × Store
set_ttl_or_panic key none s = (panic, s)
set_ttl_or_panic key (some deadline) s =
    let (found, s') = Store.set_ttl key deadline s in (reply (integer (flag found)), s')

-- A deadline in the past deletes the key.
unfoldable pub expire_at : Env → Str → ℕ → Store → Response × Store
unfolding Store.delete Store.set_ttl unix_secs_to_instant
expire_at env key deadline_secs s =
    if leb deadline_secs (env.system 0 / nanos_per_sec)
    then (reply (integer (pos 0)), (Store.delete key s).1)
    else set_ttl_or_panic key
        (unix_secs_to_instant env (env.system 1) (env.instant 0) deadline_secs) s

unfoldable pub pexpire_at : Env → Str → ℕ → Store → Response × Store
unfolding Store.delete Store.set_ttl unix_ms_to_instant
pexpire_at env key deadline_ms s =
    if leb deadline_ms (env.system 0 / nanos_per_milli % 2 ^ 64)
    then (reply (integer (pos 0)), (Store.delete key s).1)
    else set_ttl_or_panic key (unix_ms_to_instant env (env.system 1) (env.instant 0) deadline_ms) s

unfoldable pub keys : Env → Str → Store → RespValue
unfolding Store.keys
keys env pattern s = bulk_array (Store.keys pattern (env.instant 0) s)

unfoldable pub select : ℕ → RespValue
select index =
    if index == 0
    then simple_string (codes "OK")
    else simple_error (codes "ERR DB index is out of range")

unfoldable pub db_size : Store → RespValue
unfolding Store.size
db_size s = integer (as_i64 (Store.size s))

-- The command's argument comes before the configuration.
unfoldable pub flush_db : Env → Option FlushMode → Store → RespValue × Store
unfolding Store.clear Store.clear_async
flush_db env (some sync) s = (simple_string (codes "OK"), Store.clear s)
flush_db env (some async) s = (simple_string (codes "OK"), Store.clear_async s)
flush_db env none s = (
  simple_string (codes "OK"),
  (if env.lazyfree_lazy_user_flush then Store.clear_async s else Store.clear s),
)
