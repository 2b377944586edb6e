-- ===== src/Server/Steps.antt =====
-- What may happen to a server while it runs, one step at a time: the requests of all clients, in any
-- order, and the deletions of the eviction daemon, with whatever keys it has sampled before.
use thesaurus.Prelude.{
  ℕ, ◌≡◌, refl, false, Option, List, Str, Result, ok, err, Outcome, done, panicked, poisoned,
}
use thesaurus.Map
use thesaurus.Resp2.{RespValue}
use thesaurus.Command.{Command, HandlerError}
use thesaurus.Command.Parse.{from_resp2}
use thesaurus.Store
use thesaurus.Store.{Store, delete_bulk}
use thesaurus.Store.Edits.{Edits-IsWellFormed, IsWellFormed}
use thesaurus.Store.Changes.{delete_bulk-Edits}
use thesaurus.Executor.{Env, Response, reply, panic, poison}
use thesaurus.Executor.Execute.{execute}
use thesaurus.Executor.Invariants.{execute-IsWellFormed}
use thesaurus.Server.Handler.{Server, handle, handle_parsed, respond}

pub data Step (debug : RespValue → Str) (server : Server) : Server → Type 0 where
  requests :
      (env : Env) (at : ℕ) (frame : RespValue)
      → Step debug server (handle debug env at frame server).1
  evicts :
      (keys : List Str)
      → Step debug server (record server { store = delete_bulk keys server.store })

pub data Reach (debug : RespValue → Str) (server : Server) : Server → Type 0 where
  start : Reach debug server server
  then_by : {t u : Server} → Reach debug server t → Step debug t u → Reach debug server u

respond-store :
    (at : ℕ) (cmd : Command) (frame : RespValue) (log : Option Str) (r : Response × Store)
    → (respond at cmd frame log r).1.store ≡ r.1
respond-store at cmd frame log (reply v, s) = refl
respond-store at cmd frame log (panic, s) = refl
respond-store at cmd frame log (poison, s) = refl

handle_parsed-IsWellFormed :
    (debug : RespValue → Str) (env : Env) (at : ℕ) (frame : RespValue) (server : Server)
    (r : Outcome (Result HandlerError Command))
    → IsWellFormed server.store
    → IsWellFormed (handle_parsed debug env at frame r server).1.store
handle_parsed-IsWellFormed debug env at frame server (done (ok cmd)) w =
    rw (respond-store at cmd frame server.log (execute env cmd server.store))
      (execute-IsWellFormed env cmd server.store w)
handle_parsed-IsWellFormed debug env at frame server (done (err e)) w = w
handle_parsed-IsWellFormed debug env at frame server panicked w = w
handle_parsed-IsWellFormed debug env at frame server poisoned w = w

Step-IsWellFormed :
    {debug : RespValue → Str} {s t : Server}
    → Step debug s t
    → IsWellFormed s.store
    → IsWellFormed t.store
Step-IsWellFormed {debug} {s} (requests env at frame) w =
    unfold handle in handle_parsed-IsWellFormed debug env at frame s (from_resp2 frame) w
Step-IsWellFormed {s = s} (evicts keys) w =
    Edits-IsWellFormed {leaky = false} (delete_bulk-Edits keys s.store) w

pub new-IsWellFormed : IsWellFormed Store.new
unfolding Store.new
new-IsWellFormed = record {
  proper = λ k. unfold Map.empty Map.get in tt;
  distinct = unfold Map.keys Map.empty in tt;
}

-- Whatever requests the clients send, in whatever order they and the daemon's deletions run, the
-- store of a server that started empty is well formed: no empty list, no member twice in a set, no
-- key twice among the values.
pub Reach-IsWellFormed :
    (debug : RespValue → Str) (log : Option Str) (server : Server)
    → Reach debug (record { store = Store.new; log = log }) server
    → IsWellFormed server.store
Reach-IsWellFormed debug log server start = new-IsWellFormed
Reach-IsWellFormed debug log server (then_by {t} r e) =
    Step-IsWellFormed e (Reach-IsWellFormed debug log t r)
