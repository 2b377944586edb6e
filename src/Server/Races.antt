-- ===== src/Server/Races.antt =====
-- The handler executes a command and appends its entry under two locks: the rounds of several
-- connections with other rounds in between.
pub mod Ordered
use mathlib.Core.List.{append-nil}
use thesaurus.Prelude.{
  ℕ, zero, suc, ◌≡◌, refl, ap, ◌∙◌, false, Option, none, some, List, [], ◌∷◌, ◌++◌, arith, Str,
  codes, str_eq_refl, ok, done,
}
use thesaurus.Resp2.{RespValue, simple_string, array, bulk_strings, nil, cons, encode, encode_items}
use thesaurus.Resp2.RoundTrip.{IsEncodable}
use thesaurus.Command.{Command, is_write}
use thesaurus.Command.Parse.{from_resp2}
use thesaurus.Store
use thesaurus.Map
use thesaurus.Store.{Store, StoreValue, str, peek}
use thesaurus.Executor.{Env, reply}
use thesaurus.Executor.Execute.{execute}
use thesaurus.Server.Aof.{synced, sync_store_with_aof}
use thesaurus.Store.Strings.{get_string, set_string}
use thesaurus.Executor.Strings.{condition_met, apply_expiry}
use thesaurus.Executor.Setting.{set_met}
use thesaurus.Server.Aof.{apply_frame, survives, unless_crashed}
use thesaurus.Server.Replay.{replay, sync_store_with_aof_lem}
use thesaurus.Store.Visible.{peek-put}
use thesaurus.Server.Logging.{handle_ok}
use thesaurus.Server.Handler.{handle, append_if, is_logged_reply, log_entry}

-- The store, the append-only file, and the entries of the rounds that have executed their command and
-- not appended yet, one of a connection at most.
pub record Shared : Type 0 where
  pub store : Store
  pub log : Str
  pub pending : List Str

-- a round up to its append; what it would append to an empty file is its entry
abbrev pub wait_for_lock : Option Str → List Str → List Str
wait_for_lock none pending = pending
wait_for_lock (some []) pending = pending
wait_for_lock (some (c ∷ entry)) pending = pending ++ ((c ∷ entry) ∷ [])

unfoldable pub begin_round : (RespValue → Str) → Env → ℕ → RespValue → Shared → Shared
unfolding handle
begin_round debug env at frame s =
    let server = (handle debug env at frame (record { store = s.store; log = some [] })).1 in
    record s { store = server.store; pending = wait_for_lock server.log s.pending }

-- the append of one of them, which may be any
abbrev pub take_nth : ℕ → List Str → Str × List Str
take_nth n [] = ([], [])
take_nth zero (e ∷ l) = (e, l)
take_nth (suc n) (e ∷ l) = let (d, rest) = take_nth n l in (d, e ∷ rest)

unfoldable pub end_round : ℕ → Shared → Shared
end_round n s =
    let (entry, rest) = take_nth n s.pending in record s { log = s.log ++ entry; pending = rest }

pub data Reach (debug : RespValue → Str) (s : Shared) : Shared → Type 0 where
  here : Reach debug s s
  begins :
      {t : Shared}
      → Reach debug s t
      → (env : Env) (at : ℕ) (frame : RespValue) → Reach debug s (begin_round debug env at frame t)
  finishes : {t : Shared} → Reach debug s t → (n : ℕ) → Reach debug s (end_round n t)

abbrev pub fresh : Shared
fresh = record { store = Store.new; log = []; pending = [] }

abbrev pub set_frame : Str → Str → RespValue
set_frame k v = array (bulk_strings (codes "SET" ∷ k ∷ v ∷ []))

abbrev pub set_command : Str → Str → Command
set_command k v = Command.set k v none none false

pub set_frame_lem : (k v : Str) → from_resp2 (set_frame k v) ≡ done (ok (set_command k v))
unfolding from_resp2
set_frame_lem k v = refl

pub execute-set :
    (env : Env) (k v : Str) (prev : Option Str) (s : Store)
    → get_string k (env.instant 0) s ≡ ok prev
    → execute env (set_command k v) s ≡ (reply (simple_string (codes "OK")), set_string k v s)
unfolding execute
execute-set env k v prev s f =
    set_met env k v prev none false s f none (unfold condition_met in refl)
    ∙ (unfold apply_expiry in refl)

handle-set :
    (debug : RespValue → Str) (env : Env) (at : ℕ) (k v : Str) (prev : Option Str) (s : Store)
    → get_string k (env.instant 0) s ≡ ok prev
    → (handle debug env at (set_frame k v) (record { store = s; log = some [] })).1
      ≡ record { store = set_string k v s; log = some (encode (set_frame k v)) }
handle-set debug env at k v prev s f =
    rw
      (
        handle_ok debug env at (set_frame k v) (record { store = s; log = some [] })
            (set_command k v) (set_frame_lem k v),
        execute-set env k v prev s f,
      )
      (unfold append_if is_write is_logged_reply log_entry in refl)

pub missing_at_first : (k : Str) (now : ℕ) → get_string k now Store.new ≡ ok none
unfolding get_string Store.get peek Store.new
missing_at_first k now = ground (arith, Map.get-empty {V = StoreValue} k)

found_set : (k v : Str) (now : ℕ) (s : Store) → get_string k now (set_string k v s) ≡ ok (some v)
unfolding get_string set_string Store.get Store.put
found_set k v now s =
    ground
      (arith, Map.get-insert k k (str v) s.values, Map.get-remove k k s.expiry_index, str_eq_refl k)

begin_round-set :
    (debug : RespValue → Str) (env : Env) (at : ℕ) (k v : Str) (prev : Option Str) (s : Shared)
    → get_string k (env.instant 0) s.store ≡ ok prev
    → begin_round debug env at (set_frame k v) s ≡ record s {
      store = set_string k v s.store;
      pending = s.pending ++ (encode (set_frame k v) ∷ []);
    }
unfolding begin_round encode
begin_round-set debug env at k v prev s f = rw (handle-set debug env at k v prev s.store f) refl

apply_frame-set :
    (env : Env) (k v : Str) (prev : Option Str) (s : Store)
    → get_string k (env.instant 0) s ≡ ok prev
    → apply_frame env (from_resp2 (set_frame k v)) s ≡ some (set_string k v s)
apply_frame-set env k v prev s f =
    ap (λ r. apply_frame env r s) (set_frame_lem k v)
    ∙ (unfold apply_frame in ap survives (execute-set env k v prev s f))

-- what a replay makes of the two
replay-set :
    (env : Env) (k v w : Str)
    → replay (λ i. env) (cons (set_frame k w) (cons (set_frame k v) nil)) Store.new
      ≡ synced (set_string k v (set_string k w Store.new))
unfolding replay
replay-set env k v w =
    ap (λ o. unless_crashed o (replay (λ i. env) (cons (set_frame k v) nil)))
      (apply_frame-set env k w none Store.new (missing_at_first k (env.instant 0)))
    ∙ ap (λ o. unless_crashed o synced)
        (apply_frame-set env k v (some w) (set_string k w Store.new)
          (found_set k w (env.instant 0) Store.new))

-- The rounds of the two: both execute, then the one that came last appends first.
module _ (debug : RespValue → Str) (env : Env) (at : ℕ) (k v w : Str) where
  abbrev both_begun : Shared
  both_begun =
      begin_round debug env at (set_frame k w) (begin_round debug env at (set_frame k v) fresh)

  abbrev both_ended : Shared
  both_ended = end_round 0 (end_round 1 both_begun)

  both_begun_lem : both_begun ≡ record {
    store = set_string k w (set_string k v Store.new);
    log = [];
    pending = encode (set_frame k v) ∷ encode (set_frame k w) ∷ [];
  }
  both_begun_lem =
      ap (begin_round debug env at (set_frame k w))
        (begin_round-set debug env at k v none fresh (missing_at_first k (env.instant 0)))
      ∙ begin_round-set debug env at k w (some v) _ (found_set k v (env.instant 0) Store.new)

  both_ended_lem : both_ended ≡ record {
    store = set_string k w (set_string k v Store.new);
    log = encode_items (cons (set_frame k w) (cons (set_frame k v) nil));
    pending = [];
  }
  both_ended_lem =
      ap (λ s. end_round 0 (end_round 1 s)) both_begun_lem
      ∙ (unfold end_round encode_items in rw (append-nil (encode (set_frame k v))) refl)

-- Two clients set a key of an empty store: the store has the value of the one that came last, and yet,
-- if the other one is the last to get the lock of the append-only file, the replay of the file has
-- the other value, so that a restart changes the value. The key and the values must be ones that the
-- protocol can carry.
pub log_order :
    (debug : RespValue → Str) (env : Env) (at now : ℕ) (k v w : Str)
    → IsEncodable (set_frame k v)
    → IsEncodable (set_frame k w)
    → (t : Shared) × Reach debug fresh t
      × (t.pending ≡ [])
      × (peek k now t.store ≡ some (str w))
      × ((u : Store) × (sync_store_with_aof (λ i. env) t.log Store.new ≡ synced u)
          × (peek k now u ≡ some (str v)))
log_order debug env at now k v w h i = (
  both_ended debug env at k v w,
  finishes (finishes (begins (begins here env at (set_frame k v)) env at (set_frame k w)) 1) 0,
  ap (λ t. t.pending) (both_ended_lem debug env at k v w),
  ap (λ t. peek k now t.store) (both_ended_lem debug env at k v w)
      ∙ last k w (set_string k v Store.new),
  (
    set_string k v (set_string k w Store.new),
    ap (λ t. sync_store_with_aof (λ i. env) t.log Store.new) (both_ended_lem debug env at k v w)
        ∙ sync_store_with_aof_lem (cons (set_frame k w) (cons (set_frame k v) nil)) (λ i. env)
            Store.new (i, (h, tt))
        ∙ replay-set env k v w,
    last k v (set_string k w Store.new),
  ),
)
  where
    last : (k v : Str) (s : Store) → peek k now (set_string k v s) ≡ some (str v)
    last k v s = unfold set_string in ground (arith, peek-put k k (str v) now s, str_eq_refl k)
