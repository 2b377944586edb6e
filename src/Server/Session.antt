-- ===== src/Server/Session.antt =====
-- The whole loop of `Handler::run_handler`: one client's bytes in, the responses' bytes out. Between
-- the rounds no other client runs here. The bytes are all that the client sends before it closes the
-- connection or a read fails, which the decoder takes for the same; what comes of each write to the
-- socket is an argument.
pub mod Answers
pub mod Splitting
use thesaurus.Prelude.{ℕ, zero, suc, [], ◌++◌, Str, ok, err, done, panicked, poisoned, length, take}
use thesaurus.Errors.{RespError, unknown_prefix, invalid_integer, invalid_utf8, unexpected_eof}
use thesaurus.Resp2.{RespValue, encode}
use thesaurus.Resp2.Decode.{Decoded, decode}
use thesaurus.Executor.{Env, Response, reply, panic, poison}
use thesaurus.Server.Handler.{Server, handle}
use thesaurus.Server.Writer.{WriteOutcome, completes, stops_after}

-- How the handler ends: the client has gone, an error of the socket, an error of the decoder, or a
-- panic of the task.
pub data Ended : Type 0 where
  disconnected broken : Ended
  refused : RespError → Ended
  died : Ended

-- a session: how it ends, the bytes sent to the client, and the server that it leaves
pub record Session : Type 0 where
  pub ended : Ended
  pub sent : Str
  pub server : Server

-- `send_response(...).await?`, before the rest of the session. The socket takes all bytes, or fails
-- after some of them.
abbrev pub send_response : WriteOutcome → RespValue → (Server → Session) → Server → Session
send_response completes v continue server =
    let session = continue server in record session { sent = encode v ++ session.sent }
send_response (stops_after n) v continue server = record {
  ended = broken;
  sent = take n (encode v);
  server = server;
}

-- the end of a round, with the rest of the loop as an argument
abbrev pub send_or_die : WriteOutcome → Response × Server → (Server → Session) → Session
send_or_die socket (reply v, server) continue = send_response socket v continue server
send_or_die socket (panic, server) continue = record { ended = died; sent = []; server = server }
send_or_die socket (poison, server) continue = record { ended = died; sent = []; server = server }

-- the match on the decoded request
abbrev pub serve :
    WriteOutcome
    → (RespValue → Response × Server)
    → Decoded RespValue
    → Server
    → (Str → Server → Session)
    → Session
serve socket handle_one (done (ok (frame, rest))) server continue =
    send_or_die socket (handle_one frame) (continue rest)
serve socket handle_one (done (err unexpected_eof)) server continue = record {
  ended = disconnected;
  sent = [];
  server = server;
}
serve socket handle_one (done (err (unknown_prefix c))) server continue = record {
  ended = refused (unknown_prefix c);
  sent = [];
  server = server;
}
serve socket handle_one (done (err (invalid_integer t))) server continue = record {
  ended = refused (invalid_integer t);
  sent = [];
  server = server;
}
serve socket handle_one (done (err invalid_utf8)) server continue = record {
  ended = refused invalid_utf8;
  sent = [];
  server = server;
}
serve socket handle_one panicked server continue = record {
  ended = died;
  sent = [];
  server = server;
}
serve socket handle_one poisoned server continue = record {
  ended = died;
  sent = [];
  server = server;
}

-- Each round reads a line at least. `socket i`, `env i` and `at i` are what the `i`-th round
-- finds outside.
unfoldable pub rounds :
    ℕ → (ℕ → WriteOutcome) → (RespValue → Str) → (ℕ → Env) → (ℕ → ℕ) → Str → Server → Session
unfolding decode handle
rounds zero socket debug env at stream server = record {
  ended = disconnected;
  sent = [];
  server = server;
}
rounds (suc fuel) socket debug env at stream server =
    serve (socket 0) (λ frame. handle debug (env 0) (at 0) frame server) (decode stream) server
      (rounds fuel (λ i. socket (suc i)) debug (λ i. env (suc i)) (λ i. at (suc i)))

unfoldable pub run_handler :
    (ℕ → WriteOutcome) → (RespValue → Str) → (ℕ → Env) → (ℕ → ℕ) → Str → Server → Session
unfolding rounds
run_handler socket debug env at stream server =
    rounds (length stream) socket debug env at stream server
