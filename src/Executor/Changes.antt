-- ===== src/Executor/Changes.antt =====
-- The writing handlers of the executor are sequences of edits of the store.
use thesaurus.Prelude.{
  ℕ, suc, ◌≤◌, ◌≡◌, refl, Bool, true, false, Option, none, some, List, [], ◌∷◌, Str, length,
  if◌then◌else◌, Result, ok, err, Outcome, done, panicked, poisoned, Bool-cases, inl, inr, ltb,
}
use thesaurus.Command.{SetCondition, SetExpiry, ex, px, ex_at, px_at, keep_ttl}
use thesaurus.Errors.{StoreError}
use thesaurus.Resp2.{RespValue}
use thesaurus.Store
use thesaurus.Store.{Store, StoreValue, str, peek, put, drop_key}
use thesaurus.Store.Lists.{push_inner, pop_inner, max_capacity}
use thesaurus.Store.Strings.{set_string}
use thesaurus.Store.Edits.{Edits, here, one, puts, drops, Edits-trans}
use thesaurus.Store.Changes.{set_ttl-Edits, push_onto-Edits, pop_from-Edits}
use thesaurus.Store.SetChanges.{left_by}
use thesaurus.Executor.{Env, Response}
use thesaurus.Executor.Keyspace.{delete_all, set_ttl_or_error, set_ttl_or_panic}
use thesaurus.Executor.Strings.{
  set_after, set_over, apply_expiry, deadline_or_error, deadline_or_panic, kept_ttl, condition_met,
}
use thesaurus.Executor.Lists.{PushFn, push_all, push_next, pop_response}
use thesaurus.Executor.Sets.{smove_response, spop_response}

pub delete_all-Edits :
    {leaky : Bool} (keys : List Str) (s : Store) → Edits leaky s (delete_all keys s).1
unfolding delete_all Store.delete
delete_all-Edits [] s = here
delete_all-Edits (k ∷ keys) s = Edits-trans (one (drops k)) (delete_all-Edits keys (drop_key k s))

-- a push, at every reading of the clock
abbrev pub Pushes : Bool → PushFn → Type 0
Pushes leaky push_fn = (k x : Str) (now : ℕ) (s : Store) → Edits leaky s (push_fn k x now s).1

pub push_inner-Edits :
    {leaky : Bool} (push_fn : List Str → Str → List Str) (create : Bool)
    → ((l : List Str) (x : Str) → 1 ≤ length (push_fn l x))
    → Pushes leaky (λ k x. push_inner k x create push_fn)
unfolding push_inner
push_inner-Edits push_fn create grows k x now s =
    push_onto-Edits push_fn (peek k now s) k x create now s (λ l. grows l x) refl

pub push_all-Edits :
    {leaky : Bool} (push_fn : PushFn) (k : Str) (elements : List Str) (now : ℕ → ℕ) (size : ℕ)
    (s : Store)
    → Pushes leaky push_fn
    → Edits leaky s (push_all push_fn k elements now size s).1
unfolding push_all
push_all-Edits push_fn k [] now size s p = here
push_all-Edits {leaky} push_fn k (x ∷ elements) now size s p = Edits-trans (p k x (now 0) s) (
    next_edits (push_fn k x (now 0) s).0 _ (push_fn k x (now 0) s).1
      λ n. push_all-Edits push_fn k elements (λ i. now (suc i)) n (push_fn k x (now 0) s).1 p)
  where
    next_edits :
        (r : Result StoreError ℕ) (continue : ℕ → RespValue × Store) (s : Store)
        → ((n : ℕ) → Edits leaky s (continue n).1)
        → Edits leaky s (push_next r continue s).1
    next_edits (ok n) continue s h = h n
    next_edits (err e) continue s h = here

pub pop_response-Edits :
    {leaky : Bool} (has_count : Bool) (r : Outcome (Result StoreError (Option (List Str)) × Store))
    (s : Store)
    → ((x : Result StoreError (Option (List Str)) × Store) → r ≡ done x → Edits leaky s x.1)
    → Edits leaky s (pop_response has_count r s).1
pop_response-Edits has_count (done x) s h = h x refl
pop_response-Edits has_count panicked s h = here
pop_response-Edits has_count poisoned s h = here

pub pop_inner-Edits :
    (has_count : Bool) (pop_fn : List Str → Option (Str × List Str)) (k : Str) (count now : ℕ)
    (s : Store)
    → Edits true s (pop_response has_count (pop_inner k count pop_fn now s) s).1
unfolding pop_inner
pop_inner-Edits has_count pop_fn k count now s = elim (Bool-cases (ltb max_capacity count)) [
  | inl e ↦ rw e here
  | inr e ↦ rw e (pop_from-Edits pop_fn (peek k now s) k count now s refl)
]

pub smove_response-Edits :
    {leaky : Bool} (r : Outcome (Result StoreError Bool × Store)) (s : Store)
    → Edits leaky s (left_by r s)
    → Edits leaky s (smove_response r s).1
smove_response-Edits (done (r, s')) s p = p
smove_response-Edits panicked s p = p
smove_response-Edits poisoned s p = p

pub spop_response-Edits :
    {leaky : Bool} (has_count : Bool) (r : Outcome (Result StoreError (Option (List Str)) × Store))
    (s : Store)
    → Edits leaky s (left_by r s)
    → Edits leaky s (spop_response has_count r s).1
spop_response-Edits has_count (done (r, s')) s p = p
spop_response-Edits has_count panicked s p = p
spop_response-Edits has_count poisoned s p = p

pub set_ttl_or_error-Edits :
    {leaky : Bool} (k : Str) (d : Option ℕ) (s : Store) → Edits leaky s (set_ttl_or_error k d s).1
set_ttl_or_error-Edits k none s = here
set_ttl_or_error-Edits k (some d) s = set_ttl-Edits k d s

pub set_ttl_or_panic-Edits :
    {leaky : Bool} (k : Str) (d : Option ℕ) (s : Store) → Edits leaky s (set_ttl_or_panic k d s).1
set_ttl_or_panic-Edits k none s = here
set_ttl_or_panic-Edits k (some d) s = set_ttl-Edits k d s

-- EXPIREAT and PEXPIREAT: `past` is their test of the deadline.
pub expire_or_delete-Edits :
    {leaky : Bool} (past : Bool) (k : Str) (d : Option ℕ) (r : Response) (s : Store)
    → Edits leaky s (if past then (r, drop_key k s) else set_ttl_or_panic k d s).1
expire_or_delete-Edits true k d r s = one (drops k)
expire_or_delete-Edits false k d r s = set_ttl_or_panic-Edits k d s

pub deadline-Edits :
    {leaky : Bool} (d : Option ℕ) (k : Str) (answer : RespValue) (s t : Store)
    → Edits leaky s t
    → Edits leaky s (deadline_or_error d k answer t).1
      × Edits leaky s (deadline_or_panic d k answer t).1
deadline-Edits none k answer s t p = (p, p)
deadline-Edits (some d) k answer s t p =
    (Edits-trans p (set_ttl-Edits k d t), Edits-trans p (set_ttl-Edits k d t))

pub kept_ttl-Edits :
    {leaky : Bool} (d : Option ℕ) (k : Str) (s t : Store)
    → Edits leaky s t
    → Edits leaky s (kept_ttl d k t)
kept_ttl-Edits none k s t p = p
kept_ttl-Edits (some d) k s t p = Edits-trans p (set_ttl-Edits k d t)

pub apply_expiry-Edits :
    {leaky : Bool} (env : Env) (e : Option SetExpiry) (d : Option ℕ) (k : Str) (answer : RespValue)
    (s t : Store)
    → Edits leaky s t
    → Edits leaky s (apply_expiry env e d k answer t).1
unfolding apply_expiry
apply_expiry-Edits env none d k answer s t p = p
apply_expiry-Edits env (some (ex n)) d k answer s t p = (deadline-Edits _ k answer s t p).0
apply_expiry-Edits env (some (px n)) d k answer s t p = (deadline-Edits _ k answer s t p).0
apply_expiry-Edits env (some (ex_at n)) d k answer s t p = (deadline-Edits _ k answer s t p).1
apply_expiry-Edits env (some (px_at n)) d k answer s t p = (deadline-Edits _ k answer s t p).1
apply_expiry-Edits env (some keep_ttl) d k answer s t p = kept_ttl-Edits d k s t p

pub set_over-Edits :
    {leaky : Bool} (env : Env) (prev : Option Str) (k v : Str) (c : Option SetCondition)
    (e : Option SetExpiry) (g : Bool) (s : Store)
    → Edits leaky s (set_over env prev k v c e g s).1
unfolding set_over set_string
set_over-Edits env prev k v c e g s = elim (Bool-cases (condition_met env.xxh3_64 c prev)) [
  | inl met ↦ rw met (apply_expiry-Edits env e _ k _ s (put k (str v) s) (one (puts k (str v) tt)))
  | inr not_met ↦ rw not_met here
]

pub set_after-Edits :
    {leaky : Bool} (env : Env) (r : Result StoreError (Option Str)) (k v : Str)
    (c : Option SetCondition) (e : Option SetExpiry) (g : Bool) (s : Store)
    → Edits leaky s (set_after env r k v c e g s).1
unfolding set_after
set_after-Edits env (ok prev) k v c e g s = set_over-Edits env prev k v c e g s
set_after-Edits env (err x) k v c e g s = here
