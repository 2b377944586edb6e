-- ===== src/Server/Logging.antt =====
-- Which executions reach the append-only file: handler.rs against executor/mod.rs.
use thesaurus.Prelude.{
  ℕ, ◌≤◌, ◌≡◌, refl, false, ◌||◌, Option, none, some, arith, Str, ok, done, ℤ, pos, ◌/◌,
  if◌then◌else◌, str_eq,
}
use thesaurus.Resp2.{RespValue, integer}
use thesaurus.Command.{Command, is_write}
use thesaurus.Command.Parse.{from_resp2}
use thesaurus.Store.{Store, peek, drop_key, delete}
use thesaurus.Store.Visible.{peek-drop_key}
use thesaurus.Executor.{Env, Response, reply, panic, poison, nanos_per_sec}
use thesaurus.Executor.Execute.{execute}
use thesaurus.Executor.Keyspace.{expire_at}
use thesaurus.Executor.Lists
use thesaurus.Executor.ReadOnly.{is_lset, execute_reads}
use thesaurus.Server.Handler.{Server, handle, respond, append_if, is_logged_reply}

append_if_read :
    (at : ℕ) (cmd : Command) (frame response : RespValue) (log : Option Str)
    → is_write cmd ≡ false
    → append_if at cmd frame response log ≡ log
unfolding append_if
append_if_read at cmd frame response none h = refl
append_if_read at cmd frame response (some log) h = rw h

respond_read :
    (at : ℕ) (cmd : Command) (frame : RespValue) (log : Option Str) (s : Store)
    (r : Response × Store)
    → is_write cmd ≡ false
    → r.1 ≡ s
    → (respond at cmd frame log r).1 ≡ record { store = s; log = log }
respond_read at cmd frame log s (reply v, s') h e = rw (append_if_read at cmd frame v log h, e)
respond_read at cmd frame log s (panic, s') h e = rw e
respond_read at cmd frame log s (poison, s') h e = rw e

module _ (debug : RespValue → Str) (env : Env) (at : ℕ) (frame : RespValue) (server : Server) where
  pub handle_ok :
      (cmd : Command)
      → from_resp2 frame ≡ done (ok cmd)
      → handle debug env at frame server
        ≡ respond at cmd frame server.log (execute env cmd server.store)
  handle_ok cmd h = unfold handle in rw h

  -- A request for a command that is not a write for the append-only file, and is not LSET, leaves the
  -- server as it is, its store and its log.
  pub handle_reads :
      (cmd : Command)
      → from_resp2 frame ≡ done (ok cmd)
      → (is_write cmd || is_lset cmd) ≡ false
      → (handle debug env at frame server).1 ≡ server
  handle_reads cmd h r = rw (handle_ok cmd h) (
      respond_read at cmd frame server.log server.store (execute env cmd server.store)
        (ground arith) (execute_reads env cmd server.store r))

  -- LSET changes the store as its execution does, whatever it replies, and never the log.
  pub handle-lset :
      (k : Str) (i : ℤ) (e : Str)
      → from_resp2 frame ≡ done (ok (Command.lset k i e))
      → (handle debug env at frame server).1
        ≡ record { store = (Lists.lset env k i e server.store).1; log = server.log }
  handle-lset k i e h = rw (handle_ok (Command.lset k i e) h) (
      respond_read at (Command.lset k i e) frame server.log _
        (execute env (Command.lset k i e) server.store) (unfold is_write in refl)
        (unfold execute in refl))

  -- EXPIREAT with a deadline that is not in the future removes the key, replies 0 and, for that
  -- reply, leaves the log as it is.
  pub handle-expire_at :
      (k : Str) (deadline_secs : ℕ)
      → from_resp2 frame ≡ done (ok (Command.expire_at k deadline_secs))
      → deadline_secs ≤ env.system 0 / nanos_per_sec
      → ((handle debug env at frame server).0 ≡ reply (integer (pos 0)))
        × ((handle debug env at frame server).1.log ≡ server.log)
        × ((j : Str) (t : ℕ)
            → peek j t (handle debug env at frame server).1.store
              ≡ (if str_eq k j then none else peek j t server.store))
  handle-expire_at k deadline_secs h l =
      rw (handle_ok (Command.expire_at k deadline_secs) h, past)
        (refl, unlogged server.log, λ j t. peek-drop_key k j t server.store)
    where
      past :
          execute env (Command.expire_at k deadline_secs) server.store
          ≡ (reply (integer (pos 0)), drop_key k server.store)
      past = unfold execute expire_at delete in ground arith

      unlogged :
          (log : Option Str)
          → append_if at (Command.expire_at k deadline_secs) frame (integer (pos 0)) log ≡ log
      unlogged none = unfold append_if in refl
      unlogged (some log) = unfold append_if is_write is_logged_reply in refl
