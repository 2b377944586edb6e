-- ===== src/Executor/Invariants.antt =====
-- Every command's execution is a sequence of edits of the store, and keeps the store's invariants.
use thesaurus.Prelude.{
  ◌≤◌, ◌≡◌, refl, Bool, true, false, Option, none, some, List, [], ◌∷◌, arith, Str, length,
  length-append, Bool-cases, inl, inr, is_some,
}
use thesaurus.Command.{Command, FlushMode, sync, async}
use thesaurus.Store
use thesaurus.Store.{Store, StoreValue, str, peek, put, drop_key}
use thesaurus.Store.Lists as StoreLists
use thesaurus.Store.Lists.{
  push_front, push_back, push_inner, pop_inner, pop_from, max_capacity, pop_front, pop_back,
}
use thesaurus.Store.Sets as StoreSets
use thesaurus.Store.Sets.{unwrap_or}
use thesaurus.Store.Edits.{
  Edits, here, one, persists, clears, Edits-IsWellFormed, Edits-IsIndexed, IsWellFormed, IsIndexed,
}
use thesaurus.Store.Changes.{mset-Edits, get_del_string-Edits}
use thesaurus.Store.SetChanges.{
  lset_in-Edits, add_to-Edits, remove_from-Edits, pop_members-Edits, smove-Edits,
}
use thesaurus.Executor.{Env}
use thesaurus.Executor.Execute.{execute}
use thesaurus.Executor.Keyspace
use thesaurus.Executor.Keyspace.{delete_all, set_ttl_or_error, set_ttl_or_panic}
use thesaurus.Executor.Strings
use thesaurus.Executor.Strings.{
  set_after, set_over, apply_expiry, deadline_or_error, deadline_or_panic, kept_ttl, condition_met,
}
use thesaurus.Executor.Lists
use thesaurus.Executor.Lists.{PushFn, push_all, push_next, pop_response}
use thesaurus.Executor.Sets
use thesaurus.Executor.Sets.{smove_response, readings}
use thesaurus.Executor.Changes.{
  delete_all-Edits, push_inner-Edits, push_all-Edits, pop_inner-Edits, smove_response-Edits,
  spop_response-Edits, set_ttl_or_error-Edits, expire_or_delete-Edits, set_after-Edits,
}

-- LPOP and RPOP
abbrev pub is_pop : Command → Bool
is_pop (Command.lpop _ _) = true
is_pop (Command.rpop _ _) = true
is_pop _ = false

front_grows : (l : List Str) (x : Str) → 1 ≤ length (push_front l x)
front_grows l x = omega arith

back_grows : (l : List Str) (x : Str) → 1 ≤ length (push_back l x)
back_grows l x = omega (arith, length-append l (x ∷ []))

flush_db-Edits :
    {leaky : Bool} (env : Env) (mode : Option FlushMode) (s : Store)
    → Edits leaky s (Keyspace.flush_db env mode s).1
unfolding Keyspace.flush_db Store.clear Store.clear_async
flush_db-Edits env none s = elim (Bool-cases env.lazyfree_lazy_user_flush) [
  | inl e ↦ rw e (one clears)
  | inr e ↦ rw e (one clears)
]
flush_db-Edits env (some sync) s = one clears
flush_db-Edits env (some async) s = one clears

-- Every execution is a sequence of edits; only LPOP and RPOP let a value go without its deadline.
pub execute-Edits :
    (env : Env) (cmd : Command) (s : Store)
    → IsWellFormed s
    → Edits (is_pop cmd) s (execute env cmd s).1
unfolding execute Keyspace.delete Strings.get_del Strings.mset Strings.set Lists.lpush Lists.rpush
    Lists.lpushx Lists.rpushx Lists.lpop Lists.rpop StoreLists.lpop StoreLists.rpop Lists.lset
    StoreLists.lset Sets.sadd StoreSets.sadd Sets.srem StoreSets.srem Sets.spop StoreSets.spop
    Sets.smove Keyspace.persist Store.persist Keyspace.expire Keyspace.pexpire Keyspace.expire_at
    Keyspace.pexpire_at Store.delete
execute-Edits env (Command.ping message) s w = here
execute-Edits env (Command.get key) s w = here
execute-Edits env (Command.set key value condition expiry get) s w =
    set_after-Edits env _ key value condition expiry get s
execute-Edits env (Command.delete keys) s w = delete_all-Edits keys s
execute-Edits env (Command.get_del key) s w = get_del_string-Edits key (env.instant 0) s
execute-Edits env (Command.exists keys) s w = here
execute-Edits env (Command.mget keys) s w = here
execute-Edits env (Command.mset items) s w = mset-Edits items s
execute-Edits env (Command.strlen key) s w = here
execute-Edits env (Command.lpush key elements) s w =
    push_all-Edits StoreLists.lpush key elements env.instant 0 s
      (unfold StoreLists.lpush in push_inner-Edits push_front true front_grows)
execute-Edits env (Command.rpush key elements) s w =
    push_all-Edits StoreLists.rpush key elements env.instant 0 s
      (unfold StoreLists.rpush in push_inner-Edits push_back true back_grows)
execute-Edits env (Command.lpushx key elements) s w =
    push_all-Edits StoreLists.lpushx key elements env.instant 0 s
      (unfold StoreLists.lpushx in push_inner-Edits push_front false front_grows)
execute-Edits env (Command.rpushx key elements) s w =
    push_all-Edits StoreLists.rpushx key elements env.instant 0 s
      (unfold StoreLists.rpushx in push_inner-Edits push_back false back_grows)
execute-Edits env (Command.lpop key count) s w =
    pop_inner-Edits (is_some count) pop_front key (unwrap_or count 1) (env.instant 0) s
execute-Edits env (Command.rpop key count) s w =
    pop_inner-Edits (is_some count) pop_back key (unwrap_or count 1) (env.instant 0) s
execute-Edits env (Command.lset key index element) s w =
    lset_in-Edits (peek key (env.instant 0) s) key index element (env.instant 0) s w refl
execute-Edits env (Command.llen key) s w = here
execute-Edits env (Command.lindex key index) s w = here
execute-Edits env (Command.lrange key start stop) s w = here
execute-Edits env (Command.sadd key members) s w =
    add_to-Edits (peek key (env.instant 0) s) key members (env.instant 0) s w refl
execute-Edits env (Command.smembers key) s w = here
execute-Edits env (Command.sismember key member) s w = here
execute-Edits env (Command.smismember key members) s w = here
execute-Edits env (Command.srandmember key count) s w = here
execute-Edits env (Command.scard key) s w = here
execute-Edits env (Command.smove source destination member) s w =
    smove_response-Edits (StoreSets.smove source destination member (readings env) s) s
      (smove-Edits source destination member (readings env) s w)
execute-Edits env (Command.spop key count) s w =
    spop_response-Edits (is_some count) (StoreSets.spop env.rng key count (env.instant 0) s) s
      (pop_members-Edits env.rng (peek key (env.instant 0) s) key count (env.instant 0) s w refl)
execute-Edits env (Command.srem key members) s w =
    remove_from-Edits (peek key (env.instant 0) s) key members (env.instant 0) s w refl
execute-Edits env (Command.ttl key) s w = here
execute-Edits env (Command.pttl key) s w = here
execute-Edits env (Command.expire_time key) s w = here
execute-Edits env (Command.pexpire_time key) s w = here
execute-Edits env (Command.persist key) s w = one (persists key)
execute-Edits env (Command.expire key seconds) s w = set_ttl_or_error-Edits key _ s
execute-Edits env (Command.pexpire key milliseconds) s w = set_ttl_or_error-Edits key _ s
execute-Edits env (Command.expire_at key deadline_secs) s w = expire_or_delete-Edits _ key _ _ s
execute-Edits env (Command.pexpire_at key deadline_ms) s w = expire_or_delete-Edits _ key _ _ s
execute-Edits env (Command.keys pattern) s w = here
execute-Edits env (Command.digest key) s w = here
execute-Edits env (Command.select index) s w = here
execute-Edits env Command.db_size s w = here
execute-Edits env (Command.flush_db mode) s w = flush_db-Edits env mode s

-- Every command's execution keeps the store well formed: no empty list, no member twice in a set, no
-- key twice among the values.
pub execute-IsWellFormed :
    (env : Env) (cmd : Command) (s : Store) → IsWellFormed s → IsWellFormed (execute env cmd s).1
execute-IsWellFormed env cmd s w = Edits-IsWellFormed (execute-Edits env cmd s w) w

-- In a well-formed store where only keys with a value have a deadline, every command but LPOP and
-- RPOP leaves it so.
pub execute-IsIndexed :
    (env : Env) (cmd : Command) (s : Store)
    → IsWellFormed s
    → IsIndexed s
    → is_pop cmd ≡ false
    → IsIndexed (execute env cmd s).1
execute-IsIndexed env cmd s w i h = Edits-IsIndexed (rw h at (execute-Edits env cmd s w)) i
