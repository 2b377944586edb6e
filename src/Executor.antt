-- ===== src/Executor.antt =====
-- crates/thesaurus/src/executor/mod.rs: what a command's execution reads from outside, how it ends,
-- and the casts and conversions that the handlers share. The handlers stand in the child modules.
pub mod Keyspace
pub mod Strings
pub mod Lists
pub mod Sets
pub mod Execute
pub mod Changes
pub mod Invariants
pub mod Expiry
pub mod Races
pub mod WrongType
pub mod Pushes
pub mod Setting
pub mod ReadOnly
use thesaurus.Prelude.{
  ℕ, ◌+◌, ◌-◌, ◌*◌, ◌/◌, ◌%◌, ◌^◌, Bool, true, false, Option, none, some, List, [], ◌∷◌, Str,
  Result, ok, err, ltb, leb, if◌then◌else◌, ℤ, pos, negsuc,
}
use thesaurus.Errors.{StoreError, display}
use thesaurus.Resp2.{RespValue, simple_error, bulk_string, array, Items, nil, cons}
use thesaurus.Store.{Store}
use thesaurus.Store.Sets.{Rng}

-- `Instant::now()` and `SystemTime::now()` at their successive calls within one command, in
-- nanoseconds, the second since the Unix epoch; the last `Instant` that can be represented; the
-- hash XXH3 of the crate `xxhash-rust`; the random draws; the executor's flag.
pub record Env : Type 0 where
  pub instant : ℕ → ℕ
  pub system : ℕ → ℕ
  pub max_instant : ℕ
  pub xxh3_64 : Str → ℕ
  pub rng : Rng
  pub lazyfree_lazy_user_flush : Bool

-- The value to send, or a panic of the task; `poison` is a panic under the write guard.
pub data Response : Type 0 where
  reply : RespValue → Response
  panic poison : Response

-- `as i64` of an unsigned number
abbrev pub as_i64 : ℕ → ℤ
as_i64 n = let m = n % 2 ^ 64 in if ltb m (2 ^ 63) then pos m else negsuc (2 ^ 64 - 1 - m)

-- `as i64` of a `bool`
abbrev pub flag : Bool → ℤ
flag true = pos 1
flag false = pos 0

abbrev pub nanos_per_sec : ℕ
nanos_per_sec = 1_000_000_000

abbrev pub nanos_per_milli : ℕ
nanos_per_milli = 1_000_000

-- `RespValue::SimpleError(e.to_string())`
abbrev pub store_error : StoreError → RespValue
store_error e = simple_error (display e)

-- `.map(|x| RespValue::BulkString(Some(x)))` over a vector
abbrev pub bulk_items : List Str → Items
bulk_items [] = nil
bulk_items (x ∷ l) = cons (bulk_string (some x)) (bulk_items l)

abbrev pub bulk_array : List Str → RespValue
bulk_array l = array (bulk_items l)

-- `Instant::checked_add`
abbrev pub checked_add : Env → ℕ → ℕ → Option ℕ
checked_add env instant duration =
    if leb (instant + duration) env.max_instant then some (instant + duration) else none

-- `unix_secs_to_instant` and `unix_ms_to_instant`, with the reading of each clock that they make.
-- The sum panics where it cannot be represented: `none`.
unfoldable pub unix_secs_to_instant : Env → ℕ → ℕ → ℕ → Option ℕ
unix_secs_to_instant env system instant deadline_secs =
    checked_add env instant ((deadline_secs - system / nanos_per_sec) * nanos_per_sec)

unfoldable pub unix_ms_to_instant : Env → ℕ → ℕ → ℕ → Option ℕ
unix_ms_to_instant env system instant deadline_ms =
    checked_add env instant ((deadline_ms - system / nanos_per_milli % 2 ^ 64) * nanos_per_milli)
