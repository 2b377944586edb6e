-- ===== src/Executor/Strings.antt =====
-- crates/thesaurus/src/executor/string.rs
use thesaurus.Prelude.{
  ℕ, ◌*◌, ◌==◌, Bool, true, false, not, Option, none, some, List, [], ◌∷◌, Str, codes, str_eq,
  Result, ok, err, if◌then◌else◌, length, pos, is_some, is_none,
}
use thesaurus.Resp2.{
  RespValue, simple_string, simple_error, integer, bulk_string, array, Items, nil, cons,
}
use thesaurus.Decimal.{print_hex}
use thesaurus.Command.{
  SetCondition, nx, xx, if_eq, if_ne, if_deq, if_dne, SetExpiry, ex, px, ex_at, px_at, keep_ttl,
}
use thesaurus.Errors.{StoreError}
use thesaurus.Store
use thesaurus.Store.{Store}
use thesaurus.Store.Strings.{get_string, set_string, get_del_string}
use thesaurus.Store.Strings as StoreStrings
use thesaurus.Executor.{
  Env, Response, reply, panic, as_i64, nanos_per_sec, nanos_per_milli, store_error, checked_add,
  unix_secs_to_instant, unix_ms_to_instant,
}

unfoldable pub get : Env → Str → Store → RespValue
unfolding get_string
get env key s = elim (get_string key (env.instant 0) s) [
  | ok value ↦ bulk_string value
  | err e ↦ store_error e
]

-- `condition_met`
unfoldable pub condition_met : (Str → ℕ) → Option SetCondition → Option Str → Bool
condition_met digest none prev = true
condition_met digest (some nx) prev = is_none prev
condition_met digest (some xx) prev = is_some prev
condition_met digest (some (if_eq s)) none = false
condition_met digest (some (if_eq s)) (some v) = str_eq v s
condition_met digest (some (if_ne s)) none = false
condition_met digest (some (if_ne s)) (some v) = not (str_eq v s)
condition_met digest (some (if_deq u)) none = false
condition_met digest (some (if_deq u)) (some v) = digest v == u
condition_met digest (some (if_dne u)) none = false
condition_met digest (some (if_dne u)) (some v) = not (digest v == u)

-- The response where the deadline was stored.
abbrev pub set_reply : Bool → Option Str → RespValue
set_reply true prev = bulk_string prev
set_reply false prev = simple_string (codes "OK")

abbrev pub deadline_or_error : Option ℕ → Str → RespValue → Store → Response × Store
deadline_or_error none key answer s =
    (reply (simple_error (codes "ERR invalid expire time in 'set' command")), s)
deadline_or_error (some deadline) key answer s = (reply answer, (Store.set_ttl key deadline s).1)

abbrev pub deadline_or_panic : Option ℕ → Str → RespValue → Store → Response × Store
deadline_or_panic none key answer s = (panic, s)
deadline_or_panic (some deadline) key answer s = (reply answer, (Store.set_ttl key deadline s).1)

abbrev pub kept_ttl : Option ℕ → Str → Store → Store
kept_ttl none key s = s
kept_ttl (some ttl) key s = (Store.set_ttl key ttl s).1

-- The match on `expiry`, after the value is stored; `prev_ttl` was read before.
unfoldable pub apply_expiry :
    Env → Option SetExpiry → Option ℕ → Str → RespValue → Store → Response × Store
unfolding Store.set_ttl unix_secs_to_instant unix_ms_to_instant
apply_expiry env none prev_ttl key answer s = (reply answer, s)
apply_expiry env (some (ex secs)) prev_ttl key answer s =
    deadline_or_error (checked_add env (env.instant 1) (secs * nanos_per_sec)) key answer s
apply_expiry env (some (px millis)) prev_ttl key answer s =
    deadline_or_error (checked_add env (env.instant 1) (millis * nanos_per_milli)) key answer s
apply_expiry env (some (ex_at deadline_secs)) prev_ttl key answer s =
    deadline_or_panic (unix_secs_to_instant env (env.system 0) (env.instant 1) deadline_secs) key
      answer s
apply_expiry env (some (px_at deadline_ms)) prev_ttl key answer s =
    deadline_or_panic (unix_ms_to_instant env (env.system 0) (env.instant 1) deadline_ms) key answer
      s
apply_expiry env (some keep_ttl) prev_ttl key answer s = (reply answer, kept_ttl prev_ttl key s)

-- `set`, once the previous value is known
unfoldable pub set_over :
    Env
    → Option Str
    → Str
    → Str
    → Option SetCondition
    → Option SetExpiry
    → Bool
    → Store
    → Response × Store
unfolding condition_met apply_expiry set_string Store.get_ttl
set_over env prev key value condition expiry get s =
    if condition_met env.xxh3_64 condition prev
    then apply_expiry env expiry (Store.get_ttl key s) key (set_reply get prev)
        (set_string key value s)
    else (reply (bulk_string (if get then prev else none)), s)

-- the match of `set` on the previous value
unfoldable pub set_after :
    Env
    → Result StoreError (Option Str)
    → Str
    → Str
    → Option SetCondition
    → Option SetExpiry
    → Bool
    → Store
    → Response × Store
unfolding set_over
set_after env (ok prev) key value condition expiry get s =
    set_over env prev key value condition expiry get s
set_after env (err e) key value condition expiry get s = (reply (store_error e), s)

unfoldable pub set :
    Env → Str → Str → Option SetCondition → Option SetExpiry → Bool → Store → Response × Store
unfolding set_after get_string
set env key value condition expiry get s =
    set_after env (get_string key (env.instant 0) s) key value condition expiry get s

abbrev pub string_reply : Result StoreError (Option Str) → RespValue
string_reply (ok value) = bulk_string value
string_reply (err e) = store_error e

unfoldable pub get_del : Env → Str → Store → RespValue × Store
unfolding get_del_string
get_del env key s =
    let (value, s') = get_del_string key (env.instant 0) s in (string_reply value, s')

abbrev pub optional_items : List (Option Str) → Items
optional_items [] = nil
optional_items (v ∷ l) = cons (bulk_string v) (optional_items l)

unfoldable pub mget : Env → List Str → Store → RespValue
unfolding StoreStrings.mget
mget env keys s = array (optional_items (StoreStrings.mget keys env.instant s))

unfoldable pub mset : List (Str × Str) → Store → RespValue × Store
unfolding StoreStrings.mset
mset items s = (simple_string (codes "OK"), StoreStrings.mset items s)

unfoldable pub strlen : Env → Str → Store → RespValue
unfolding get_string
strlen env key s = elim (get_string key (env.instant 0) s) [
  | ok (some v) ↦ integer (as_i64 (length v))
  | ok none ↦ integer (pos 0)
  | err e ↦ store_error e
]

unfoldable pub digest : Env → Str → Store → RespValue
unfolding get_string print_hex
digest env key s = elim (get_string key (env.instant 0) s) [
  | ok (some v) ↦ bulk_string (some (print_hex 16 (env.xxh3_64 v) []))
  | ok none ↦ bulk_string none
  | err e ↦ store_error e
]
