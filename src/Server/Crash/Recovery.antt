-- ===== src/Server/Crash/Recovery.antt =====
-- What the next start makes of the file that a crash leaves: the store that was served.
use mathlib.Core.List.{append_assoc, append-nil}
use thesaurus.Prelude.{ap, sym, ◌∙◌, ◌||◌, true, ℕ, [], ◌≡◌, refl, some, ◌++◌, Str, ok, done}
use thesaurus.Config.{AppendFsyncMode}
use thesaurus.Resp2.{Items, encode_items, RespValue}
use thesaurus.Resp2.RoundTrip.{IsEncodable, AreEncodable}
use thesaurus.Command.{Command, is_write}
use thesaurus.Command.Parse.{from_resp2}
use thesaurus.Server.Crash.{
  Serves, serving, starts, reads, rejects, refuses, writes, restarts, syncs, spills, reads_same,
  rejects_same, refuses_same, writes_lem,
}
use thesaurus.Store
use thesaurus.Store.{Store}
use thesaurus.Executor.{Env, reply}
use thesaurus.Executor.Execute.{execute}
use thesaurus.Server.Aof.{sync_store_with_aof, synced}
use thesaurus.Server.Durable.{IsInStep, log_entry-IsInStep}
use thesaurus.Server.Entries.{IsLoggable}
use thesaurus.Server.Handler.{is_logged_reply, log_entry}
use thesaurus.Server.Writer.{
  succeeded, Writer, is_always, is_every_sec, Calls, append, task_syncs, new,
}
use thesaurus.Server.Writer.Handling.{Serving, handle_with}
use thesaurus.Server.Writer.Restarts.{Runs, opened, appends, task_runs, writes_back, disk_lem}

-- The entries of the file are in step with the store.
abbrev Held : AppendFsyncMode → Serving → Type 0
Held mode server =
    (w : Writer) × (file : Str) × (entries : Str) × (server.writer ≡ some w)
    × Runs mode file entries w
    × IsInStep Store.new (record { store = server.store; log = some (file ++ entries) })

unsome : {A : Type 0} (a b : A) → some a ≡ some b → a ≡ b
unsome a b e = cc

Held-serving :
    (mode : AppendFsyncMode) (s : Store) (w : Writer)
    → Held mode (serving s w)
    → (file : Str) × (entries : Str) × Runs mode file entries w
      × IsInStep Store.new (record { store = s; log = some (file ++ entries) })
Held-serving mode s w (v, file, entries, same, runs, step) =
    (file, entries, rw (unsome w v same) runs, step)

writes-Held :
    (mode : AppendFsyncMode) (debug : RespValue → Str) (calls : Calls) (e : Env) (at : ℕ)
    (frame r : RespValue) (cmd : Command) (s s' : Store) (w : Writer)
    → IsEncodable frame
    → from_resp2 frame ≡ done (ok cmd)
    → is_write cmd ≡ true
    → IsLoggable at cmd
    → execute e cmd s ≡ (reply r, s')
    → is_logged_reply r ≡ true
    → (append calls (log_entry at cmd frame) w).0 ≡ succeeded
    → Held mode (serving s w)
    → Held mode (handle_with calls debug e at frame (serving s w)).1
writes-Held mode debug calls e at frame r cmd s s' w k f g n x l a held =
    let (file, entries, runs, step) = Held-serving mode s w held in
    rw (writes_lem calls debug e at frame r cmd s s' w f g x l) (
      (append calls (log_entry at cmd frame) w).1,
      file,
      entries ++ log_entry at cmd frame,
      refl,
      appends runs calls (log_entry at cmd frame) a,
      behind file entries
          (log_entry-IsInStep e at frame r cmd (file ++ entries) Store.new s s' k f n x l step),
    )
  where
    behind :
        (file entries : Str)
        → IsInStep Store.new
            (record { store = s'; log = some ((file ++ entries) ++ log_entry at cmd frame) })
        → IsInStep Store.new
            (record { store = s'; log = some (file ++ (entries ++ log_entry at cmd frame)) })
    behind file entries step = rw (append_assoc file entries (log_entry at cmd frame)) at step

starts-Held :
    (mode : AppendFsyncMode) (vs : Items) (env : ℕ → Env) (s : Store)
    → AreEncodable vs
    → sync_store_with_aof env (encode_items vs) Store.new ≡ synced s
    → Held mode (serving s (new mode (encode_items vs)))
starts-Held mode vs env s k h = (
  new mode (encode_items vs),
  encode_items vs,
  [],
  refl,
  opened,
  (vs, env, ap some (append-nil (encode_items vs)), k, h),
)

restarts-Held :
    (mode : AppendFsyncMode) (w : Writer) (vs : Items) (env : ℕ → Env) (s : Store)
    → (task_syncs succeeded w).disk ≡ encode_items vs
    → AreEncodable vs
    → sync_store_with_aof env (task_syncs succeeded w).disk Store.new ≡ synced s
    → Held mode (serving s (new mode (task_syncs succeeded w).disk))
restarts-Held mode w vs env s e k h =
    rw e (
      starts-Held mode vs env s k (ap (λ disk. sync_store_with_aof env disk Store.new) (sym e) ∙ h))

Serves-Held :
    {debug : RespValue → Str} {mode : AppendFsyncMode} {server : Serving}
    → Serves debug mode server
    → (is_always mode || is_every_sec mode) ≡ true
    → Held mode server
Serves-Held {debug} {mode} (starts vs env s k h) m = starts-Held mode vs env s k h
Serves-Held {debug} (reads {server} r calls e at frame cmd f h) m =
    rw (reads_same calls debug e at frame server cmd f h) (Serves-Held r m)
Serves-Held {debug} (rejects {server} r calls e at frame error f) m =
    rw (rejects_same calls debug e at frame server error f) (Serves-Held r m)
Serves-Held {debug} (refuses {server} r calls e at frame v cmd f x l) m =
    rw (refuses_same calls debug e at frame server v cmd f x l) (Serves-Held r m)
Serves-Held {debug} {mode} (writes {s} {s'} {w} r calls e at frame v cmd k f g n x l a) m =
    writes-Held mode debug calls e at frame v cmd s s' w k f g n x l a (Serves-Held r m)
Serves-Held {debug} {mode} (syncs {s} {w} r) m =
    let (file, entries, runs, step) = Held-serving mode s w (Serves-Held r m) in
    (task_syncs succeeded w, file, entries, refl, task_runs runs, step)
Serves-Held {debug} {mode} (spills {s} {w} r more rest k) m =
    let (file, entries, runs, step) = Held-serving mode s w (Serves-Held r m) in
    (_, file, entries, refl, writes_back runs more rest k, step)
Serves-Held {debug} {mode} (restarts {s} {s'} {w} r env h) m =
    let (file, entries, runs, (vs, env', log, k, step)) = Held-serving mode s w (Serves-Held r m) in
    restarts-Held mode w vs env s'
      (disk_lem mode file entries w runs m ∙ unsome (file ++ entries) (encode_items vs) log) k h

-- A server in mode `always` or `every_sec` that started with a file of values that the protocol can
-- carry, which rebuilt its store (nothing, in a new file), has served any number of requests one after
-- the other, each of which was executed only after the append of the one before, perhaps over any
-- number of restarts, each from what was on the disk after a sync that succeeded, and evicted nothing;
-- no request panicked and no sync failed. Every write that changed the store was one with a reply that
-- is logged, that the protocol can carry, and an append that succeeds; for EXPIRE and PEXPIRE the time
-- is not zero and the deadline is a `u64`. Once the background task has synced the file, which takes no
-- call in mode `always`, the replay of what is on the disk rebuilds the store, for some readings of the
-- clocks, the hash and the draws.
pub restart-Serves :
    (debug : RespValue → Str) (mode : AppendFsyncMode) (s : Store) (w : Writer)
    → Serves debug mode (serving s w)
    → (is_always mode || is_every_sec mode) ≡ true
    → (env : ℕ → Env) × (sync_store_with_aof env (task_syncs succeeded w).disk Store.new ≡ synced s)
restart-Serves debug mode s w r m =
    let (file, entries, runs, (vs, env, log, k, step)) = Held-serving mode s w (Serves-Held r m) in
    (
      env,
      ap (λ disk. sync_store_with_aof env disk Store.new)
            (disk_lem mode file entries w runs m ∙ unsome (file ++ entries) (encode_items vs) log)
          ∙ step,
    )
