-- ===== src/Server/Aof.antt =====
-- The replay of the append-only file, `sync_store_with_aof` of crates/thesaurus/src/aof.rs.
use thesaurus.Prelude.{
  ℕ, zero, suc, Option, none, some, Str, Result, ok, err, Outcome, done, panicked, poisoned, length,
}
use thesaurus.Errors.{RespError, unknown_prefix, invalid_integer, invalid_utf8, unexpected_eof}
use thesaurus.Resp2.{RespValue}
use thesaurus.Resp2.Decode.{Decoded, decode}
use thesaurus.Command.{HandlerError, Command}
use thesaurus.Command.Parse.{from_resp2}
use thesaurus.Store.{Store}
use thesaurus.Executor.{Env, Response, reply, panic, poison}
use thesaurus.Executor.Execute.{execute}

-- How the replay ends, with the store that it has built: at the end of the file, at an error of the
-- decoder, or by a panic.
pub data Synced : Type 0 where
  synced : Store → Synced
  decode_error : RespError → Store → Synced
  crashed : Synced

abbrev pub survives : Response × Store → Option Store
survives (reply _, s) = some s
survives (panic, s) = none
survives (poison, s) = none

-- One frame applied to the store; an entry that is no command is passed over, and `none` is a panic.
unfoldable pub apply_frame : Env → Outcome (Result HandlerError Command) → Store → Option Store
unfolding execute
apply_frame env (done (err e)) s = some s
apply_frame env (done (ok cmd)) s = survives (execute env cmd s)
apply_frame env panicked s = none
apply_frame env poisoned s = none

abbrev pub unless_crashed : Option Store → (Store → Synced) → Synced
unless_crashed none continue = crashed
unless_crashed (some s) continue = continue s

-- The body of the loop, with the rest of the loop as an argument.
abbrev pub sync_step : Env → Decoded RespValue → Store → (Str → Store → Synced) → Synced
sync_step env (done (ok (v, rest))) s continue =
    unless_crashed (apply_frame env (from_resp2 v) s) (continue rest)
sync_step env (done (err unexpected_eof)) s continue = synced s
sync_step env (done (err (unknown_prefix c))) s continue = decode_error (unknown_prefix c) s
sync_step env (done (err (invalid_integer t))) s continue = decode_error (invalid_integer t) s
sync_step env (done (err invalid_utf8)) s continue = decode_error invalid_utf8 s
sync_step env panicked s continue = crashed
sync_step env poisoned s continue = crashed

-- Each round reads a line at least, so the number of bytes is fuel enough. `env i` is what the
-- `i`-th round reads from outside.
unfoldable pub sync_loop : ℕ → (ℕ → Env) → Str → Store → Synced
unfolding decode from_resp2 apply_frame
sync_loop zero env file s = synced s
sync_loop (suc fuel) env file s =
    sync_step (env 0) (decode file) s (sync_loop fuel (λ i. env (suc i)))

unfoldable pub sync_store_with_aof : (ℕ → Env) → Str → Store → Synced
unfolding sync_loop
sync_store_with_aof env file s = sync_loop (length file) env file s
