-- ===== src/Server/Durable.antt =====
-- A write that is logged keeps the append-only file in step with the store.
use mathlib.Core.List.{append_assoc, append-nil}
use thesaurus.Prelude.{
  ℕ, zero, suc, ◌≡◌, refl, sym, ap, ◌∙◌, true, Option, none, some, ◌++◌, Str, ok, done,
}
use thesaurus.Resp2.{RespValue, encode, encode_items, Items, nil, cons, count}
use thesaurus.Resp2.RoundTrip.{IsEncodable, AreEncodable}
use thesaurus.Command.{Command, is_write}
use thesaurus.Command.Parse.{from_resp2}
use thesaurus.Store.{Store}
use thesaurus.Executor.{Env, reply}
use thesaurus.Executor.Execute.{execute}
use thesaurus.Server.Aof.{Synced, synced, apply_frame, unless_crashed, sync_store_with_aof}
use thesaurus.Server.Replay.{replay, sync_store_with_aof_lem}
use thesaurus.Server.Entries.{IsLoggable}
use thesaurus.Server.Entries.Expiring.{log_entry-IsReplayed}
use thesaurus.Server.Handler.{Server, handle, append_if, log_entry, is_logged_reply}

-- one value behind the others
abbrev pub snoc : Items → RespValue → Items
snoc nil v = cons v nil
snoc (cons w vs) v = cons w (snoc vs v)

pub encode_items-snoc :
    (vs : Items) (v : RespValue) → encode_items (snoc vs v) ≡ encode_items vs ++ encode v
unfolding encode_items
encode_items-snoc nil v = append-nil (encode v)
encode_items-snoc (cons w vs) v =
    ap (λ s. encode w ++ s) (encode_items-snoc vs v)
    ∙ sym (append_assoc (encode w) (encode_items vs) (encode v))

pub snoc-AreEncodable :
    (vs : Items) (v : RespValue) → AreEncodable vs → IsEncodable v → AreEncodable (snoc vs v)
snoc-AreEncodable nil v h k = (k, tt)
snoc-AreEncodable (cons w vs) v h k = (h.0, snoc-AreEncodable vs v h.1 k)

-- `n` readings, then one more
abbrev extend : ℕ → (ℕ → Env) → Env → ℕ → Env
extend zero env e i = e
extend (suc n) env e zero = env 0
extend (suc n) env e (suc i) = extend n (λ j. env (suc j)) e i

same_store : (s t : Store) → synced s ≡ synced t → s ≡ t
same_store s t h = cc

continue_lem :
    (o : Option Store) (f g : Store → Synced) (t : Store) (r : Synced)
    → ((s : Store) → f s ≡ synced t → g s ≡ r)
    → unless_crashed o f ≡ synced t
    → unless_crashed o g ≡ r
continue_lem none f g t r k h = cc
continue_lem (some s) f g t r k h = k s h

replay-snoc :
    (vs : Items) (v : RespValue) (env : ℕ → Env) (e : Env) (s t : Store)
    → replay env vs s ≡ synced t
    → replay (extend (count vs) env e) (snoc vs v) s
      ≡ unless_crashed (apply_frame e (from_resp2 v) t) synced
unfolding replay
replay-snoc nil v env e s t h =
    ap (λ x. unless_crashed (apply_frame e (from_resp2 v) x) synced) (same_store s t h)
replay-snoc (cons w vs) v env e s t h =
    continue_lem (apply_frame (env 0) (from_resp2 w) s) (replay (λ i. env (suc i)) vs)
      (replay (extend (count vs) (λ i. env (suc i)) e) (snoc vs v)) t _
      (λ s' k. replay-snoc vs v (λ i. env (suc i)) e s' t k) h

-- The log is the encodings of some values, and their replay from `start` rebuilds the store, for some
-- readings of the clocks, the hash and the draws.
abbrev pub IsInStep : Store → Server → Type 0
IsInStep start server =
    (vs : Items) × (env : ℕ → Env) × (server.log ≡ some (encode_items vs))
    × AreEncodable vs
    × (sync_store_with_aof env (encode_items vs) start ≡ synced server.store)

abbrev appended : Option Str → RespValue → Option Str
appended none v = none
appended (some log) v = some (log ++ encode v)

-- The entry of a write that executes with a reply that is logged keeps the file in step.
pub log_entry-IsInStep :
    (e : Env) (at : ℕ) (frame r : RespValue) (cmd : Command) (log : Str) (start s s' : Store)
    → IsEncodable frame
    → from_resp2 frame ≡ done (ok cmd)
    → IsLoggable at cmd
    → execute e cmd s ≡ (reply r, s')
    → is_logged_reply r ≡ true
    → IsInStep start (record { store = s; log = some log })
    → IsInStep start (record { store = s'; log = some (log ++ log_entry at cmd frame) })
log_entry-IsInStep e at frame r cmd log start s s' k f n x l (vs, env, g, a, h) =
    let (v, e', entry, k', applied) = log_entry-IsReplayed e at frame r cmd s s' k f n x l in
    (
      snoc vs v,
      extend (count vs) env e',
      logged v entry,
      snoc-AreEncodable vs v a k',
      again v e' k' applied,
    )
  where
    logged :
        (v : RespValue)
        → log_entry at cmd frame ≡ encode v
        → some (log ++ log_entry at cmd frame) ≡ some (encode_items (snoc vs v))
    logged v e = rw (e, encode_items-snoc vs v) (ap (λ o. appended o v) g)

    again :
        (v : RespValue) (e' : Env)
        → IsEncodable v
        → apply_frame e' (from_resp2 v) s ≡ some s'
        → sync_store_with_aof (extend (count vs) env e') (encode_items (snoc vs v)) start
          ≡ synced s'
    again v e' k' applied =
        sync_store_with_aof_lem (snoc vs v) (extend (count vs) env e') start
          (snoc-AreEncodable vs v a k')
        ∙ replay-snoc vs v env e' start s (sym (sync_store_with_aof_lem vs env start a) ∙ h)
        ∙ ap (λ o. unless_crashed o synced) applied

-- A request that the protocol can carry, for a write that executes with a reply that is logged, keeps
-- the file in step with the store: if the log was the encodings of some values, and their replay from
-- `start` rebuilt the store for some readings of the clocks, the hash and the draws, then the same
-- holds of the log and of the store after the request. For EXPIRE and PEXPIRE the time is not zero
-- and the deadline is a `u64`.
pub handle-IsInStep :
    (debug : RespValue → Str) (e : Env) (at : ℕ) (frame r : RespValue) (server : Server)
    (cmd : Command) (start s' : Store)
    → IsEncodable frame
    → from_resp2 frame ≡ done (ok cmd)
    → is_write cmd ≡ true
    → IsLoggable at cmd
    → execute e cmd server.store ≡ (reply r, s')
    → is_logged_reply r ≡ true
    → IsInStep start server
    → IsInStep start (handle debug e at frame server).1
handle-IsInStep debug e at frame r server cmd start s' k f w n x l (vs, env, g, a, h) = rw after (
    log_entry-IsInStep e at frame r cmd (encode_items vs) start server.store s' k f n x l
      (vs, env, refl, a, h))
  where
    after :
        (handle debug e at frame server).1
        ≡ record { store = s'; log = some (encode_items vs ++ log_entry at cmd frame) }
    after =
        unfold handle in
        rw (f, x) (ap (λ l. record { store = s'; log = l }) (unfold append_if in rw (g, w, l) refl))
