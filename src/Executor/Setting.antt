-- ===== src/Executor/Setting.antt =====
-- SET of executor/string.rs: what a reader finds after it, by the kind of expiry.
use thesaurus.Prelude.{
  Bool-cases, inl, inr, ◌&&◌, ℕ, ◌*◌, ◌≡◌, refl, Bool, true, false, Option, none, some, arith, Str,
  codes, str_eq, if◌then◌else◌, ltb, ok,
}
use thesaurus.Map
use thesaurus.Resp2.{RespValue, simple_error, bulk_string}
use thesaurus.Command.{SetCondition, SetExpiry, ex, px, ex_at, px_at, keep_ttl}
use thesaurus.Store
use thesaurus.Store.{Store, StoreValue, str, peek, put, has_passed}
use thesaurus.Store.Visible.{peek-put}
use thesaurus.Store.Strings.{get_string, set_string}
use thesaurus.Executor.{
  Env, Response, reply, panic, checked_add, nanos_per_sec, nanos_per_milli, unix_secs_to_instant,
  unix_ms_to_instant,
}
use thesaurus.Executor.Strings.{
  set, set_after, set_over, condition_met, apply_expiry, set_reply, kept_ttl, deadline_or_error,
  deadline_or_panic,
}

-- What is put with a deadline is found until then.
peek-put_until :
    (k j : Str) (v : StoreValue) (deadline now : ℕ) (s : Store)
    → peek j now (Store.set_ttl k deadline (put k v s)).1
      ≡ (if str_eq k j then if ltb now deadline then some v else none else peek j now s)
unfolding peek put Store.set_ttl
peek-put_until k j v deadline now s = ground (
  arith,
  Map.get-insert k j v s.values,
  Map.get-insert_self k v s.values,
  Map.get-insert k j deadline (Map.remove k s.expiry_index),
  Map.get-remove k j s.expiry_index,
)

-- The deadline of a `SetExpiry` that has one, `none` where it cannot be represented.
abbrev pub deadline_of : Env → SetExpiry → Option ℕ
deadline_of env (ex secs) = checked_add env (env.instant 1) (secs * nanos_per_sec)
deadline_of env (px millis) = checked_add env (env.instant 1) (millis * nanos_per_milli)
deadline_of env (ex_at deadline_secs) =
    unix_secs_to_instant env (env.system 0) (env.instant 1) deadline_secs
deadline_of env (px_at deadline_ms) =
    unix_ms_to_instant env (env.system 0) (env.instant 1) deadline_ms
deadline_of env keep_ttl = none

-- Until when a value that is set lasts, `none` for good: for KEEPTTL until the deadline that the key
-- had, and for good if the deadline cannot be represented.
abbrev pub lasts_until : Env → Option ℕ → Option SetExpiry → Option ℕ
lasts_until env kept none = none
lasts_until env kept (some keep_ttl) = kept
lasts_until env kept (some e) = deadline_of env e

abbrev pub is_some_or : Option ℕ → Response → RespValue → Response
is_some_or none otherwise answer = otherwise
is_some_or (some deadline) otherwise answer = reply answer

-- The answer, unless the deadline cannot be represented: an error for EX and PX, a panic for EXAT and
-- PXAT.
abbrev pub set_response : Env → Option SetExpiry → RespValue → Response
set_response env none answer = reply answer
set_response env (some keep_ttl) answer = reply answer
set_response env (some (ex_at n)) answer = is_some_or (deadline_of env (ex_at n)) panic answer
set_response env (some (px_at n)) answer = is_some_or (deadline_of env (px_at n)) panic answer
set_response env (some e) answer =
    is_some_or (deadline_of env e)
      (reply (simple_error (codes "ERR invalid expire time in 'set' command"))) answer

deadline_or_error_lem :
    (o : Option ℕ) (k : Str) (answer : RespValue) (s : Store)
    → deadline_or_error o k answer s ≡ (
      is_some_or o (reply (simple_error (codes "ERR invalid expire time in 'set' command"))) answer,
      kept_ttl o k s,
    )
deadline_or_error_lem none k answer s = refl
deadline_or_error_lem (some deadline) k answer s = refl

deadline_or_panic_lem :
    (o : Option ℕ) (k : Str) (answer : RespValue) (s : Store)
    → deadline_or_panic o k answer s ≡ (is_some_or o panic answer, kept_ttl o k s)
deadline_or_panic_lem none k answer s = refl
deadline_or_panic_lem (some deadline) k answer s = refl

apply_expiry_lem :
    (env : Env) (e : Option SetExpiry) (kept : Option ℕ) (k : Str) (answer : RespValue) (s : Store)
    → apply_expiry env e kept k answer s
      ≡ (set_response env e answer, kept_ttl (lasts_until env kept e) k s)
unfolding apply_expiry
apply_expiry_lem env none kept k answer s = refl
apply_expiry_lem env (some (ex n)) kept k answer s = deadline_or_error_lem _ k answer s
apply_expiry_lem env (some (px n)) kept k answer s = deadline_or_error_lem _ k answer s
apply_expiry_lem env (some (ex_at n)) kept k answer s = deadline_or_panic_lem _ k answer s
apply_expiry_lem env (some (px_at n)) kept k answer s = deadline_or_panic_lem _ k answer s
apply_expiry_lem env (some keep_ttl) kept k answer s = refl

peek-set_string_until :
    (k v : Str) (o : Option ℕ) (j : Str) (now : ℕ) (s : Store)
    → peek j now (kept_ttl o k (set_string k v s))
      ≡ (if str_eq k j then if has_passed now o then none else some (str v) else peek j now s)
unfolding set_string
peek-set_string_until k v none j now s = peek-put k j (str v) now s
peek-set_string_until k v (some deadline) j now s =
    ground (arith, peek-put_until k j (str v) deadline now s)

module _ (env : Env) (k v : Str) (prev : Option Str) (c : Option SetCondition) (g : Bool)
    (s : Store) (found : get_string k (env.instant 0) s ≡ ok prev) where
  pub set_met :
      (e : Option SetExpiry)
      → condition_met env.xxh3_64 c prev ≡ true
      → set env k v c e g s
        ≡ apply_expiry env e (Store.get_ttl k s) k (set_reply g prev) (set_string k v s)
  set_met e h = unfold set in rw found (unfold set_after set_over in rw h)

  set_unmet :
      (e : Option SetExpiry)
      → condition_met env.xxh3_64 c prev ≡ false
      → set env k v c e g s ≡ (reply (bulk_string (if g then prev else none)), s)
  set_unmet e h = unfold set in rw found (unfold set_after set_over in rw h)

  -- SET where a string or nothing is found. If the condition is met, the reply is OK or, with GET, the
  -- previous value, and a reader finds the value until its deadline: the one given, with KEEPTTL the
  -- one that the key has in the expiry index, even if it has passed, and otherwise none. A deadline
  -- that cannot be represented makes EX and PX reply with an error and EXAT and PXAT panic, and yet
  -- the value is stored, for good. If the condition is not met, a reader finds no change, and the reply
  -- is null or, with GET, the previous value. Every other key is as it was.
  pub set_lem :
      (e : Option SetExpiry)
      → ((set env k v c e g s).0 ≡ (
          if condition_met env.xxh3_64 c prev
          then set_response env e (set_reply g prev)
          else reply (bulk_string (if g then prev else none))))
        × ((j : Str) (now : ℕ)
            → peek j now (set env k v c e g s).1 ≡ (
                if condition_met env.xxh3_64 c prev && str_eq k j
                then if has_passed now (lasts_until env (Store.get_ttl k s) e)
                  then none
                  else some (str v)
                else peek j now s))
  set_lem e = elim (Bool-cases (condition_met env.xxh3_64 c prev)) [
    | inl met ↦
        rw (set_met e met, apply_expiry_lem env e (Store.get_ttl k s) k (set_reply g prev) _, met)
          (refl, λ j now. peek-set_string_until k v (lasts_until env (Store.get_ttl k s) e) j now s)
    | inr unmet ↦ rw (set_unmet e unmet, unmet) (refl, λ j now. refl)
  ]
