-- ===== src/Executor/Sets.antt =====
-- crates/thesaurus/src/executor/set.rs
use thesaurus.Prelude.{
  ℕ, Bool, true, false, Option, none, some, List, [], ◌∷◌, Str, Result, ok, err, Outcome, done,
  panicked, poisoned, ℤ, pos, negsuc, is_some, pos_part, neg_part, ◌+◌,
}
use thesaurus.Resp2.{RespValue, integer, bulk_string, array, Items, nil, cons}
use thesaurus.Errors.{StoreError}
use thesaurus.Store.{Store}
use thesaurus.Store.Sets as StoreSets
use thesaurus.Store.Sets.{Readings}
use thesaurus.Executor.{Env, Response, reply, panic, poison, flag, store_error, bulk_array}
use thesaurus.Executor.Lists.{size_reply}

unfoldable pub sadd : Env → Str → List Str → Store → RespValue × Store
unfolding StoreSets.sadd
sadd env key members s =
    let (r, s') = StoreSets.sadd key members (env.instant 0) s in (size_reply r, s')

unfoldable pub smembers : Env → Str → Store → RespValue
unfolding StoreSets.smembers
smembers env key s = elim (StoreSets.smembers key (env.instant 0) s) [
  | ok members ↦ bulk_array members
  | err e ↦ store_error e
]

abbrev pub flag_reply : Result StoreError Bool → RespValue
flag_reply (ok b) = integer (flag b)
flag_reply (err e) = store_error e

unfoldable pub sismember : Env → Str → Str → Store → RespValue
unfolding StoreSets.sismember
sismember env key member s = flag_reply (StoreSets.sismember key member (env.instant 0) s)

abbrev pub flag_items : List Bool → Items
flag_items [] = nil
flag_items (b ∷ l) = cons (integer (flag b)) (flag_items l)

unfoldable pub smismember : Env → Str → List Str → Store → RespValue
unfolding StoreSets.smismember
smismember env key members s = elim (StoreSets.smismember key members (env.instant 0) s) [
  | ok flags ↦ array (flag_items flags)
  | err e ↦ store_error e
]

-- `members.pop()`
abbrev pub last_of_all : List Str → Option Str
last_of_all [] = none
last_of_all (x ∷ []) = some x
last_of_all (x ∷ y ∷ l) = last_of_all (y ∷ l)

-- an array where a count was given, otherwise the last of the members
abbrev pub members_reply : Bool → List Str → RespValue
members_reply true members = bulk_array members
members_reply false members = bulk_string (last_of_all members)

-- `count.map(|c| c.unsigned_abs() as usize)`
abbrev pub amount : Option ℤ → Option ℕ
amount none = none
amount (some c) = some (pos_part c + neg_part c)

-- `count.is_some_and(|c| c < 0)`
abbrev pub allow_repetition : Option ℤ → Bool
allow_repetition (some (negsuc n)) = true
allow_repetition (some (pos n)) = false
allow_repetition none = false

abbrev pub srandmember_response : Bool → Option (Result StoreError (List Str)) → Response
srandmember_response has_count none = panic
srandmember_response has_count (some (ok members)) = reply (members_reply has_count members)
srandmember_response has_count (some (err e)) = reply (store_error e)

unfoldable pub srandmember : Env → Str → Option ℤ → Store → Response
unfolding StoreSets.srandmember
srandmember env key count s =
    srandmember_response (is_some count)
      (StoreSets.srandmember env.rng key (amount count) (allow_repetition count) (env.instant 0) s)

unfoldable pub scard : Env → Str → Store → RespValue
unfolding StoreSets.scard
scard env key s = size_reply (StoreSets.scard key (env.instant 0) s)

abbrev pub readings : Env → Readings
readings env = record {
  at_source = env.instant 0;
  at_destination = env.instant 1;
  at_removal = env.instant 2;
  at_insertion = env.instant 3;
}

abbrev pub smove_response : Outcome (Result StoreError Bool × Store) → Store → Response × Store
smove_response (done (r, s')) s = (reply (flag_reply r), s')
smove_response panicked s = (panic, s)
smove_response poisoned s = (poison, s)

unfoldable pub smove : Env → Str → Str → Str → Store → Response × Store
unfolding StoreSets.smove
smove env source destination member s =
    smove_response (StoreSets.smove source destination member (readings env) s) s

abbrev pub spop_reply : Bool → Result StoreError (Option (List Str)) → RespValue
spop_reply true (ok none) = array nil
spop_reply false (ok none) = bulk_string none
spop_reply has_count (ok (some members)) = members_reply has_count members
spop_reply has_count (err e) = store_error e

abbrev pub spop_response :
    Bool → Outcome (Result StoreError (Option (List Str)) × Store) → Store → Response × Store
spop_response has_count (done (r, s')) s = (reply (spop_reply has_count r), s')
spop_response has_count panicked s = (panic, s)
spop_response has_count poisoned s = (poison, s)

unfoldable pub spop : Env → Str → Option ℕ → Store → Response × Store
unfolding StoreSets.spop
spop env key count s =
    spop_response (is_some count) (StoreSets.spop env.rng key count (env.instant 0) s) s

unfoldable pub srem : Env → Str → List Str → Store → RespValue × Store
unfolding StoreSets.srem
srem env key members s =
    let (r, s') = StoreSets.srem key members (env.instant 0) s in (size_reply r, s')
