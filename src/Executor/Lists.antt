-- ===== src/Executor/Lists.antt =====
-- crates/thesaurus/src/executor/list.rs
use thesaurus.Prelude.{
  ℕ, suc, Bool, true, false, Option, none, some, List, [], ◌∷◌, Str, codes, Result, ok, err,
  Outcome, done, panicked, poisoned, ℤ, is_some,
}
use thesaurus.Resp2.{RespValue, simple_string, integer, bulk_string}
use thesaurus.Errors.{StoreError}
use thesaurus.Store.{Store}
use thesaurus.Store.Lists as StoreLists
use thesaurus.Store.Sets.{unwrap_or}
use thesaurus.Executor.{Env, Response, reply, panic, poison, as_i64, store_error, bulk_array}

-- `fn(&Store, &str, String) -> Result<usize, StoreError>`, with the reading of the clock
abbrev pub PushFn : Type 0
PushFn = Str → Str → ℕ → Store → Result StoreError ℕ × Store

-- the match on one push, with the rest of the loop as an argument
abbrev pub push_next : Result StoreError ℕ → (ℕ → RespValue × Store) → Store → RespValue × Store
push_next (ok n) continue s = continue n
push_next (err e) continue s = (store_error e, s)

-- The loop of `push_inner`: one push for each element, until one fails.
unfoldable pub push_all : PushFn → Str → List Str → (ℕ → ℕ) → ℕ → Store → RespValue × Store
push_all push_fn key [] now size s = (integer (as_i64 size), s)
push_all push_fn key (element ∷ elements) now size s =
    let (r, s') = push_fn key element (now 0) s in
    push_next r (λ n. push_all push_fn key elements (λ i. now (suc i)) n s') s'

unfoldable pub lpush : Env → Str → List Str → Store → RespValue × Store
unfolding push_all StoreLists.lpush
lpush env key elements = push_all StoreLists.lpush key elements env.instant 0

unfoldable pub rpush : Env → Str → List Str → Store → RespValue × Store
unfolding push_all StoreLists.rpush
rpush env key elements = push_all StoreLists.rpush key elements env.instant 0

unfoldable pub lpushx : Env → Str → List Str → Store → RespValue × Store
unfolding push_all StoreLists.lpushx
lpushx env key elements = push_all StoreLists.lpushx key elements env.instant 0

unfoldable pub rpushx : Env → Str → List Str → Store → RespValue × Store
unfolding push_all StoreLists.rpushx
rpushx env key elements = push_all StoreLists.rpushx key elements env.instant 0

abbrev pub first_of_all : List Str → Option Str
first_of_all [] = none
first_of_all (x ∷ l) = some x

-- The match of `pop_inner` on the result.
unfoldable pub pop_reply : Bool → Result StoreError (Option (List Str)) → RespValue
pop_reply true (ok (some elements)) = bulk_array elements
pop_reply false (ok (some elements)) = bulk_string (first_of_all elements)
pop_reply has_count (ok none) = bulk_string none
pop_reply has_count (err e) = store_error e

abbrev pub pop_response :
    Bool → Outcome (Result StoreError (Option (List Str)) × Store) → Store → Response × Store
pop_response has_count (done (r, s')) s = (reply (pop_reply has_count r), s')
pop_response has_count panicked s = (panic, s)
pop_response has_count poisoned s = (poison, s)

unfoldable pub lpop : Env → Str → Option ℕ → Store → Response × Store
unfolding StoreLists.lpop pop_reply
lpop env key count s =
    pop_response (is_some count) (StoreLists.lpop key (unwrap_or count 1) (env.instant 0) s) s

unfoldable pub rpop : Env → Str → Option ℕ → Store → Response × Store
unfolding StoreLists.rpop pop_reply
rpop env key count s =
    pop_response (is_some count) (StoreLists.rpop key (unwrap_or count 1) (env.instant 0) s) s

abbrev pub ok_reply : Result StoreError (Unit {0}) → RespValue
ok_reply (ok _) = simple_string (codes "OK")
ok_reply (err e) = store_error e

abbrev pub size_reply : Result StoreError ℕ → RespValue
size_reply (ok n) = integer (as_i64 n)
size_reply (err e) = store_error e

unfoldable pub lset : Env → Str → ℤ → Str → Store → RespValue × Store
unfolding StoreLists.lset
lset env key index element s =
    let (r, s') = StoreLists.lset key index element (env.instant 0) s in (ok_reply r, s')

unfoldable pub llen : Env → Str → Store → RespValue
unfolding StoreLists.llen
llen env key s = size_reply (StoreLists.llen key (env.instant 0) s)

unfoldable pub lindex : Env → Str → ℤ → Store → RespValue
unfolding StoreLists.lindex
lindex env key index s = elim (StoreLists.lindex key index (env.instant 0) s) [
  | ok element ↦ bulk_string element
  | err e ↦ store_error e
]

unfoldable pub lrange : Env → Str → ℤ → ℤ → Store → RespValue
unfolding StoreLists.lrange
lrange env key start stop s = elim (StoreLists.lrange key start stop (env.instant 0) s) [
  | ok elements ↦ bulk_array elements
  | err e ↦ store_error e
]
