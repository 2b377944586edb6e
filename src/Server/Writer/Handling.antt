-- ===== src/Server/Writer/Handling.antt =====
-- A round of the handler over the writer of the append-only file, whose append may fail: handler.rs
-- logs the error and replies as if there were none.
use mathlib.Core.List.{append-nil}
use thesaurus.Prelude.{
  arith, take_all, sym, ℕ, ◌≡◌, refl, ◌&&◌, Bool-cases, inl, inr, Option, none, some, [], ◌++◌, Str,
  Result, ok, err, Outcome, done, panicked, poisoned, if◌then◌else◌, length, take,
}
use thesaurus.Resp2.{RespValue}
use thesaurus.Command.{HandlerError, Command, is_write}
use thesaurus.Command.Parse.{from_resp2}
use thesaurus.Store.{Store}
use thesaurus.Executor.{Env, Response, reply, panic, poison}
use thesaurus.Executor.Execute.{execute}
use thesaurus.Server.Handler.{
  Server, is_logged_reply, log_entry, parse_error, append_if, respond, handle_parsed, handle,
}
use thesaurus.Server.Writer.{Writer, Calls, IoResult, succeeded, failed, append}
use thesaurus.Server.Writer.Durability.{content, Appends, append-Appends}

pub record Serving : Type 0 where
  pub store : Store
  pub writer : Option Writer

-- `if let Err(e) = writer.append(...)`, whose error is only logged
unfoldable pub append_with :
    Calls → ℕ → Command → RespValue → RespValue → Option Writer → Option Writer
unfolding is_write is_logged_reply log_entry append
append_with calls system cmd frame response none = none
append_with calls system cmd frame response (some w) =
    if is_write cmd && is_logged_reply response
    then some (append calls (log_entry system cmd frame) w).1
    else some w

abbrev pub respond_with :
    Calls → ℕ → Command → RespValue → Option Writer → Response × Store → Response × Serving
respond_with calls logged_at cmd frame writer (reply response, s) = (
  reply response,
  record { store = s; writer = append_with calls logged_at cmd frame response writer },
)
respond_with calls logged_at cmd frame writer (panic, s) =
    (panic, record { store = s; writer = writer })
respond_with calls logged_at cmd frame writer (poison, s) =
    (poison, record { store = s; writer = writer })

abbrev pub handle_parsed_with :
    Calls
    → (RespValue → Str)
    → Env
    → ℕ
    → RespValue
    → Outcome (Result HandlerError Command)
    → Serving
    → Response × Serving
handle_parsed_with calls debug env logged_at frame (done (ok cmd)) server =
    respond_with calls logged_at cmd frame server.writer (execute env cmd server.store)
handle_parsed_with calls debug env logged_at frame (done (err e)) server =
    (reply (parse_error debug e), server)
handle_parsed_with calls debug env logged_at frame panicked server = (panic, server)
handle_parsed_with calls debug env logged_at frame poisoned server = (poison, server)

unfoldable pub handle_with :
    Calls → (RespValue → Str) → Env → ℕ → RespValue → Serving → Response × Serving
unfolding from_resp2 execute append_with parse_error
handle_with calls debug env logged_at frame server =
    handle_parsed_with calls debug env logged_at frame (from_resp2 frame) server

-- the server whose log is what its writer has written, in the file or in the buffer
abbrev pub content_of : Option Writer → Option Str
content_of none = none
content_of (some w) = some (content w)

abbrev pub view : Serving → Server
view server = record { store = server.store; log = content_of server.writer }

abbrev pub respond_view : Response × Serving → Response × Server
respond_view (r, server) = (r, view server)

-- the log `l` with a part of what `m` has behind it
abbrev pub IsCut : Option Str → Option Str → Option Str → Type 0
IsCut (some l) (some m) (some k) =
    (entry : Str) × (n : ℕ) × (m ≡ l ++ entry) × (k ≡ l ++ take n entry)
IsCut none none none = Unit
IsCut _ _ _ = ⊥

-- Two rounds from the same store: the same reply, the same store, and of the log a part.
abbrev pub Agrees : Option Str → Response × Server → Response × Server → Type 0
Agrees log (r, s) (r', s') = (r' ≡ r) × (s'.store ≡ s.store) × IsCut log s.log s'.log

uncut : (o : Option Str) → IsCut o o o
uncut none = tt
uncut (some l) = ([], 0, sym (append-nil l), sym (append-nil l))

partly :
    (s : Str) (w : Writer) (r : IoResult × Writer)
    → Appends s w r
    → (n : ℕ) × (content r.1 ≡ content w ++ take n s)
partly s w (succeeded, v) (b, k, _, _, _) =
    (length s, rw (take_all (length s) s (omega arith), b, append-nil) k)
partly s w (failed, v) (n, e, _, _) = (n, e)

append_with-IsCut :
    (calls : Calls) (at : ℕ) (cmd : Command) (frame r : RespValue) (o : Option Writer)
    → IsCut
        (content_of o)
        (append_if at cmd frame r (content_of o))
        (content_of (append_with calls at cmd frame r o))
unfolding append_if append_with
append_with-IsCut calls at cmd frame r none = tt
append_with-IsCut calls at cmd frame r (some w) =
    elim (Bool-cases (is_write cmd && is_logged_reply r)) [
      | inl logged ↦
          let entry = log_entry at cmd frame in
          let (n, e) = partly entry w (append calls entry w) (append-Appends calls entry w) in
          rw logged (entry, n, refl, e)
      | inr not_logged ↦ rw not_logged (uncut (some (content w)))
    ]

handle_parsed_with-Agrees :
    (calls : Calls) (debug : RespValue → Str) (env : Env) (at : ℕ) (frame : RespValue)
    (parsed : Outcome (Result HandlerError Command)) (server : Serving)
    → Agrees
        (content_of server.writer)
        (handle_parsed debug env at frame parsed (view server))
        (respond_view (handle_parsed_with calls debug env at frame parsed server))
handle_parsed_with-Agrees calls debug env at frame (done (ok cmd)) server =
    by_response (execute env cmd server.store)
  where
    by_response :
        (r : Response × Store)
        → Agrees
            (content_of server.writer)
            (respond at cmd frame (content_of server.writer) r)
            (respond_view (respond_with calls at cmd frame server.writer r))
    by_response (reply v, s) = (refl, refl, append_with-IsCut calls at cmd frame v server.writer)
    by_response (panic, s) = (refl, refl, uncut (content_of server.writer))
    by_response (poison, s) = (refl, refl, uncut (content_of server.writer))
handle_parsed_with-Agrees calls debug env at frame (done (err e)) server =
    (refl, refl, uncut (content_of server.writer))
handle_parsed_with-Agrees calls debug env at frame panicked server =
    (refl, refl, uncut (content_of server.writer))
handle_parsed_with-Agrees calls debug env at frame poisoned server =
    (refl, refl, uncut (content_of server.writer))

-- Whatever the system calls of the append answer, the client gets the reply, and the server the
-- store, of a round whose log never fails; the writer has what was there and, of the entry that such
-- a log gets, a part, perhaps all of it or nothing.
pub handle_with-Agrees :
    (calls : Calls) (debug : RespValue → Str) (env : Env) (at : ℕ) (frame : RespValue)
    (server : Serving)
    → Agrees
        (content_of server.writer)
        (handle debug env at frame (view server))
        (respond_view (handle_with calls debug env at frame server))
unfolding handle handle_with
handle_with-Agrees calls debug env at frame server =
    handle_parsed_with-Agrees calls debug env at frame (from_resp2 frame) server
