-- ===== src/Command.antt =====
-- crates/thesaurus/src/command/mod.rs and command/string.rs, the types; `HandlerError` of errors.rs.
pub mod Checked
pub mod Arguments
pub mod StringArguments
pub mod Arity
pub mod Panics
pub mod Parse
pub mod Requests
pub mod Options
pub mod RoundTrip
pub mod Tests
use thesaurus.Prelude.{ℕ, Bool, true, false, Option, List, Str, ℤ}
use thesaurus.Resp2.{RespValue}

-- `expected` of `UnexpectedType` is one of two texts.
pub data Expected : Type 0 where
  an_array a_bulk_string : Expected

pub data HandlerError : Type 0 where
  unexpected_type : Expected → RespValue → HandlerError
  unknown_command : Str → HandlerError
  wrong_arity : ℕ → ℕ → HandlerError
  not_an_integer : Str → HandlerError
  db_index_out_of_range : HandlerError
  syntax_error : HandlerError

pub data SetCondition : Type 0 where
  nx xx : SetCondition
  if_eq if_ne : Str → SetCondition
  if_deq if_dne : ℕ → SetCondition

pub data SetExpiry : Type 0 where
  ex px ex_at px_at : ℕ → SetExpiry
  keep_ttl : SetExpiry

pub data FlushMode : Type 0 where
  sync async : FlushMode

-- The fields stand in the order of the source.
pub data Command : Type 0 where
  ping : Option Str → Command
  get : Str → Command
  set : Str → Str → Option SetCondition → Option SetExpiry → Bool → Command
  delete : List Str → Command
  get_del : Str → Command
  exists : List Str → Command
  mget : List Str → Command
  mset : List (Str × Str) → Command
  strlen : Str → Command
  lpush rpush lpushx rpushx : Str → List Str → Command
  lpop rpop : Str → Option ℕ → Command
  lset : Str → ℤ → Str → Command
  llen : Str → Command
  lindex : Str → ℤ → Command
  lrange : Str → ℤ → ℤ → Command
  sadd : Str → List Str → Command
  smembers : Str → Command
  sismember : Str → Str → Command
  smismember : Str → List Str → Command
  srandmember : Str → Option ℤ → Command
  scard : Str → Command
  smove : Str → Str → Str → Command
  spop : Str → Option ℕ → Command
  srem : Str → List Str → Command
  ttl pttl expire_time pexpire_time persist : Str → Command
  expire pexpire expire_at pexpire_at : Str → ℕ → Command
  keys : Str → Command
  digest : Str → Command
  select : ℕ → Command
  db_size : Command
  flush_db : Option FlushMode → Command

-- `Command::is_write`: whether the command goes to the append-only file
unfoldable pub is_write : Command → Bool
is_write (set _ _ _ _ _) = true
is_write (delete _) = true
is_write (get_del _) = true
is_write (mset _) = true
is_write (lpush _ _) = true
is_write (rpush _ _) = true
is_write (lpushx _ _) = true
is_write (rpushx _ _) = true
is_write (lpop _ _) = true
is_write (rpop _ _) = true
is_write (sadd _ _) = true
is_write (smove _ _ _) = true
is_write (spop _ _) = true
is_write (srem _ _) = true
is_write (persist _) = true
is_write (expire _ _) = true
is_write (pexpire _ _) = true
is_write (expire_at _ _) = true
is_write (pexpire_at _ _) = true
is_write (flush_db _) = true
is_write _ = false
