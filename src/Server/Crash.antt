-- ===== src/Server/Crash.antt =====
-- A server that starts with an empty append-only file, its requests and its file together: what a
-- crash leaves on the disk, and what the next start makes of it.
pub mod Recovery
use thesaurus.Prelude.{
  ℕ, ◌≡◌, refl, sym, ap, ◌∙◌, Bool, true, false, ◌&&◌, ◌||◌, Option, none, some, [], ◌++◌, arith,
  Str, ok, err, done, if◌then◌else◌,
}
use thesaurus.Config.{AppendFsyncMode}
use thesaurus.Resp2.{Items, encode_items, RespValue, encode_items, nil}
use thesaurus.Resp2.RoundTrip.{IsEncodable, AreEncodable}
use thesaurus.Command.{HandlerError, Command, is_write}
use thesaurus.Command.Parse.{from_resp2}
use thesaurus.Store
use thesaurus.Store.{Store}
use thesaurus.Executor.{Env, Response, reply, panic, poison}
use thesaurus.Executor.Execute.{execute}
use thesaurus.Executor.ReadOnly.{is_lset, execute_reads}
use thesaurus.Server.Aof.{sync_store_with_aof, synced}
use thesaurus.Server.Durable.{IsInStep, log_entry-IsInStep}
use thesaurus.Server.Aof.{sync_store_with_aof, synced}
use thesaurus.Server.Entries.{IsLoggable}
use thesaurus.Server.Handler.{Server, is_logged_reply, log_entry, append_if, handle}
use thesaurus.Server.Replay.{replay, sync_store_with_aof_lem}
use thesaurus.Server.Writer.{
  succeeded, Writer, is_always, is_every_sec, Calls, append, task_syncs, new,
}
use thesaurus.Server.Writer.Handling.{Serving, append_with, respond_with, handle_with}
use thesaurus.Server.Writer.Restarts.{Runs, opened, appends, task_runs, writes_back, restart_lem}

abbrev pub serving : Store → Writer → Serving
serving s w = record { store = s; writer = some w }

-- The states of a server that handles its requests one after the other, by what has happened: the
-- replay of a file with the encodings of some values, perhaps none, requests for commands that do not
-- write, requests that are no command, writes that are refused and change nothing, writes whose reply
-- is logged and whose append succeeds, syncs of the background task that succeed, restarts from what is
-- on the disk after such a sync, and bytes that the kernel writes to the disk by itself.
pub data Serves (debug : RespValue → Str) (mode : AppendFsyncMode) : Serving → Type 0 where
  starts :
      (vs : Items) (env : ℕ → Env) (s : Store)
      → AreEncodable vs
      → sync_store_with_aof env (encode_items vs) Store.new ≡ synced s
      → Serves debug mode (serving s (new mode (encode_items vs)))
  reads :
      {server : Serving}
      → Serves debug mode server
      → (calls : Calls) (e : Env) (at : ℕ) (frame : RespValue) (cmd : Command)
      → from_resp2 frame ≡ done (ok cmd)
      → (is_write cmd || is_lset cmd) ≡ false
      → Serves debug mode (handle_with calls debug e at frame server).1
  rejects :
      {server : Serving}
      → Serves debug mode server
      → (calls : Calls) (e : Env) (at : ℕ) (frame : RespValue) (error : HandlerError)
      → from_resp2 frame ≡ done (err error)
      → Serves debug mode (handle_with calls debug e at frame server).1
  refuses :
      {server : Serving}
      → Serves debug mode server
      → (calls : Calls) (e : Env) (at : ℕ) (frame r : RespValue) (cmd : Command)
      → from_resp2 frame ≡ done (ok cmd)
      → execute e cmd server.store ≡ (reply r, server.store)
      → is_logged_reply r ≡ false
      → Serves debug mode (handle_with calls debug e at frame server).1
  writes :
      {s s' : Store} {w : Writer}
      → Serves debug mode (serving s w)
      → (calls : Calls) (e : Env) (at : ℕ) (frame r : RespValue) (cmd : Command) → IsEncodable frame
      → from_resp2 frame ≡ done (ok cmd)
      → is_write cmd ≡ true
      → IsLoggable at cmd
      → execute e cmd s ≡ (reply r, s')
      → is_logged_reply r ≡ true
      → (append calls (log_entry at cmd frame) w).0 ≡ succeeded
      → Serves debug mode (handle_with calls debug e at frame (serving s w)).1
  syncs :
      {s : Store} {w : Writer}
      → Serves debug mode (serving s w)
      → Serves debug mode (serving s (task_syncs succeeded w))
  restarts :
      {s s' : Store} {w : Writer}
      → Serves debug mode (serving s w)
      → (env : ℕ → Env)
      → sync_store_with_aof env (task_syncs succeeded w).disk Store.new ≡ synced s'
      → Serves debug mode (serving s' (new mode (task_syncs succeeded w).disk))
  spills :
      {s : Store} {w : Writer}
      → Serves debug mode (serving s w)
      → (more rest : Str) → w.kernel ≡ w.disk ++ (more ++ rest)
      → Serves debug mode (serving s (record w { disk = w.disk ++ more }))

append_with_same :
    (calls : Calls) (at : ℕ) (cmd : Command) (frame r : RespValue) (o : Option Writer)
    → (is_write cmd && is_logged_reply r) ≡ false
    → append_with calls at cmd frame r o ≡ o
unfolding append_with
append_with_same calls at cmd frame r none h = refl
append_with_same calls at cmd frame r (some w) h = rw h

respond_with_read :
    (calls : Calls) (at : ℕ) (cmd : Command) (frame : RespValue) (server : Serving)
    (p : Response × Store)
    → is_write cmd ≡ false
    → p.1 ≡ server.store
    → (respond_with calls at cmd frame server.writer p).1 ≡ server
respond_with_read calls at cmd frame server (reply r, s) h e =
    rw (append_with_same calls at cmd frame r server.writer (ground arith), e)
respond_with_read calls at cmd frame server (panic, s) h e = rw e
respond_with_read calls at cmd frame server (poison, s) h e = rw e

module _ (calls : Calls) (debug : RespValue → Str) (e : Env) (at : ℕ) (frame : RespValue)
    (server : Serving) where
  pub reads_same :
      (cmd : Command)
      → from_resp2 frame ≡ done (ok cmd)
      → (is_write cmd || is_lset cmd) ≡ false
      → (handle_with calls debug e at frame server).1 ≡ server
  reads_same cmd f h =
      unfold handle_with in
      rw f (
        respond_with_read calls at cmd frame server (execute e cmd server.store) (ground arith)
          (execute_reads e cmd server.store h))

  pub rejects_same :
      (error : HandlerError)
      → from_resp2 frame ≡ done (err error)
      → (handle_with calls debug e at frame server).1 ≡ server
  rejects_same error f = unfold handle_with in rw f refl

  pub refuses_same :
      (r : RespValue) (cmd : Command)
      → from_resp2 frame ≡ done (ok cmd)
      → execute e cmd server.store ≡ (reply r, server.store)
      → is_logged_reply r ≡ false
      → (handle_with calls debug e at frame server).1 ≡ server
  refuses_same r cmd f x l =
      unfold handle_with in
      rw (f, x, append_with_same calls at cmd frame r server.writer (ground arith)) refl

-- A write with a reply that is logged appends its entry.
pub writes_lem :
    (calls : Calls) (debug : RespValue → Str) (e : Env) (at : ℕ) (frame r : RespValue)
    (cmd : Command) (s s' : Store) (w : Writer)
    → from_resp2 frame ≡ done (ok cmd)
    → is_write cmd ≡ true
    → execute e cmd s ≡ (reply r, s')
    → is_logged_reply r ≡ true
    → (handle_with calls debug e at frame (serving s w)).1
      ≡ serving s' (append calls (log_entry at cmd frame) w).1
writes_lem calls debug e at frame r cmd s s' w f g x l =
    unfold handle_with append_with in rw (f, x, g, l) refl
