-- ===== src/Server/Races/Ordered.antt =====
-- Rounds that append in the order in which they executed.
use mathlib.Core.List.{append_assoc, append-nil}
use thesaurus.Prelude.{
  ℕ, ◌≡◌, refl, sym, ap, ◌∙◌, true, false, ◌||◌, some, List, [], ◌∷◌, ◌++◌, arith, Str, ok, err,
  done,
}
use thesaurus.Resp2.{RespValue, Items, encode_items}
use thesaurus.Resp2.RoundTrip.{IsEncodable, AreEncodable}
use thesaurus.Command.{Command, HandlerError, is_write}
use thesaurus.Command.Parse.{from_resp2}
use thesaurus.Store
use thesaurus.Store.{Store}
use thesaurus.Executor.{Env, reply}
use thesaurus.Executor.Execute.{execute}
use thesaurus.Executor.ReadOnly.{is_lset}
use thesaurus.Server.Durable.{IsInStep, log_entry-IsInStep}
use thesaurus.Server.Aof.{sync_store_with_aof, synced}
use thesaurus.Server.Entries.{IsLoggable}
use thesaurus.Server.Handler.{Server, handle, is_logged_reply, log_entry, append_if}
use thesaurus.Server.Logging.{handle_ok, handle_reads}
use thesaurus.Server.Races.{Shared, begin_round, end_round, wait_for_lock, take_nth}

-- Rounds of any number of connections in which the one that executed first gets the lock of the file
-- first.
pub data Orderly (debug : RespValue → Str) : Shared → Type 0 where
  starts :
      (vs : Items) (env : ℕ → Env) (s : Store)
      → AreEncodable vs
      → sync_store_with_aof env (encode_items vs) Store.new ≡ synced s
      → Orderly debug (record { store = s; log = encode_items vs; pending = [] })
  reads :
      {t : Shared}
      → Orderly debug t
      → (e : Env) (at : ℕ) (frame : RespValue) (cmd : Command) → from_resp2 frame ≡ done (ok cmd)
      → (is_write cmd || is_lset cmd) ≡ false
      → Orderly debug (begin_round debug e at frame t)
  rejects :
      {t : Shared}
      → Orderly debug t
      → (e : Env) (at : ℕ) (frame : RespValue) (error : HandlerError)
      → from_resp2 frame ≡ done (err error)
      → Orderly debug (begin_round debug e at frame t)
  refuses :
      {t : Shared}
      → Orderly debug t
      → (e : Env) (at : ℕ) (frame r : RespValue) (cmd : Command) → from_resp2 frame ≡ done (ok cmd)
      → execute e cmd t.store ≡ (reply r, t.store)
      → is_logged_reply r ≡ false
      → Orderly debug (begin_round debug e at frame t)
  writes :
      {t : Shared}
      → Orderly debug t
      → (e : Env) (at : ℕ) (frame r : RespValue) (cmd : Command) (s' : Store) → IsEncodable frame
      → from_resp2 frame ≡ done (ok cmd)
      → is_write cmd ≡ true
      → IsLoggable at cmd
      → execute e cmd t.store ≡ (reply r, s')
      → is_logged_reply r ≡ true
      → Orderly debug (begin_round debug e at frame t)
  appends : {t : Shared} → Orderly debug t → Orderly debug (end_round 0 t)

-- the entries one after the other
abbrev pub joined : List Str → Str
joined [] = []
joined (e ∷ l) = e ++ joined l

-- the file as it will be once the rounds that have executed have appended
abbrev pub to_come : Shared → Server
to_come t = record { store = t.store; log = some (t.log ++ joined t.pending) }

joined-wait_for_lock :
    (pending : List Str) (entry : Str)
    → joined (wait_for_lock (some entry) pending) ≡ joined pending ++ entry
joined-wait_for_lock pending [] = sym (append-nil (joined pending))
joined-wait_for_lock [] (c ∷ entry) = append-nil (c ∷ entry)
joined-wait_for_lock (e ∷ pending) (c ∷ entry) =
    ap (λ s. e ++ s) (joined-wait_for_lock pending (c ∷ entry))
    ∙ sym (append_assoc e (joined pending) (c ∷ entry))

reads_lem :
    (debug : RespValue → Str) (e : Env) (at : ℕ) (frame : RespValue) (cmd : Command) (t : Shared)
    → from_resp2 frame ≡ done (ok cmd)
    → (is_write cmd || is_lset cmd) ≡ false
    → begin_round debug e at frame t ≡ t
reads_lem debug e at frame cmd t f h =
    unfold begin_round in
    rw (handle_reads debug e at frame (record { store = t.store; log = some [] }) cmd f h) refl

rejects_lem :
    (debug : RespValue → Str) (e : Env) (at : ℕ) (frame : RespValue) (error : HandlerError)
    (t : Shared)
    → from_resp2 frame ≡ done (err error)
    → begin_round debug e at frame t ≡ t
rejects_lem debug e at frame error t f = unfold begin_round in rw rejected refl
  where
    rejected :
        (handle debug e at frame (record { store = t.store; log = some [] })).1
        ≡ record { store = t.store; log = some [] }
    rejected = unfold handle in rw f refl

refuses_lem :
    (debug : RespValue → Str) (e : Env) (at : ℕ) (frame r : RespValue) (cmd : Command) (t : Shared)
    → from_resp2 frame ≡ done (ok cmd)
    → execute e cmd t.store ≡ (reply r, t.store)
    → is_logged_reply r ≡ false
    → begin_round debug e at frame t ≡ t
refuses_lem debug e at frame r cmd t f x l =
    unfold begin_round in
    rw (handle_ok debug e at frame (record { store = t.store; log = some [] }) cmd f, x)
      (rw unlogged refl)
  where
    unlogged : append_if at cmd frame r (some []) ≡ some []
    unlogged = unfold append_if in ground arith

writes_lem :
    (debug : RespValue → Str) (e : Env) (at : ℕ) (frame r : RespValue) (cmd : Command) (t : Shared)
    (s' : Store)
    → from_resp2 frame ≡ done (ok cmd)
    → is_write cmd ≡ true
    → execute e cmd t.store ≡ (reply r, s')
    → is_logged_reply r ≡ true
    → begin_round debug e at frame t
      ≡ record t { store = s'; pending = wait_for_lock (some (log_entry at cmd frame)) t.pending }
writes_lem debug e at frame r cmd t s' f g x l =
    unfold begin_round in
    rw (handle_ok debug e at frame (record { store = t.store; log = some [] }) cmd f, x)
      (unfold append_if in rw (g, l) refl)

end_round_lem : (t : Shared) → to_come (end_round 0 t) ≡ to_come t
unfolding end_round
end_round_lem t = ap (λ log. record { store = t.store; log = some log }) (moved t.pending)
  where
    moved :
        (pending : List Str)
        → (t.log ++ (take_nth 0 pending).0) ++ joined (take_nth 0 pending).1
          ≡ t.log ++ joined pending
    moved [] = append_assoc t.log [] []
    moved (e ∷ pending) = append_assoc t.log e (joined pending)

behind_all :
    (log entry : Str) (pending : List Str)
    → log ++ joined (wait_for_lock (some entry) pending) ≡ (log ++ joined pending) ++ entry
behind_all log entry pending =
    ap (λ s. log ++ s) (joined-wait_for_lock pending entry)
    ∙ sym (append_assoc log (joined pending) entry)

in_step : (s t : Server) → s ≡ t → IsInStep Store.new t → IsInStep Store.new s
in_step s t e h = rw e h

-- Rounds of any number of connections: for commands that do not write, for requests that are no
-- command, for writes that are refused and change nothing, and for writes with a reply that is logged,
-- that the protocol can carry, and for EXPIRE and PEXPIRE a time that is not zero and a deadline that
-- is a `u64`. If the rounds get the lock of the file in the order in which they executed, the file,
-- with the entries that are still to come, is always in step with the store: its replay rebuilds the
-- store for some readings, if it did so at the start.
pub Orderly-IsInStep :
    {debug : RespValue → Str} {t : Shared} → Orderly debug t → IsInStep Store.new (to_come t)
Orderly-IsInStep (starts vs env s k h) = (vs, env, ap some (append-nil (encode_items vs)), k, h)
Orderly-IsInStep {debug} (reads {t} o e at frame cmd f h) =
    rw (reads_lem debug e at frame cmd t f h) (Orderly-IsInStep o)
Orderly-IsInStep {debug} (rejects {t} o e at frame error f) =
    rw (rejects_lem debug e at frame error t f) (Orderly-IsInStep o)
Orderly-IsInStep {debug} (refuses {t} o e at frame r cmd f x l) =
    rw (refuses_lem debug e at frame r cmd t f x l) (Orderly-IsInStep o)
Orderly-IsInStep {debug} (writes {t} o e at frame r cmd s' k f g n x l) =
    rw
      (
        writes_lem debug e at frame r cmd t s' f g x l,
        behind_all t.log (log_entry at cmd frame) t.pending,
      )
      (log_entry-IsInStep e at frame r cmd (t.log ++ joined t.pending) Store.new t.store s' k f n x
        l (Orderly-IsInStep o))
Orderly-IsInStep (appends {t} o) =
    in_step (to_come (end_round 0 t)) (to_come t) (end_round_lem t) (Orderly-IsInStep o)
