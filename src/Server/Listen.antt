-- ===== src/Server/Listen.antt =====
-- The loop of `main` in crates/thesaurus/src/main.rs and its shutdown, one event at a time. The
-- semaphore of tokio is an argument.
pub mod Limits
pub mod Shutdown
pub mod Ending
use thesaurus.Prelude.{ℕ, zero, suc, ◌-◌, Option, none, some, List, [], ◌∷◌, Str, map}
use thesaurus.Resp2.{RespValue}
use thesaurus.Executor.{Env}
use thesaurus.Server.Writer.{IoResult, WriteOutcome, Writer, Calls, task_syncs, drop_writer}
use thesaurus.Server.Writer.Handling.{Serving, handle_with}

-- What `main` calls of `tokio::sync::Semaphore`: `acquire` is `none` where the caller has to wait.
pub record Semaphore : Type 1 where
  pub Permits : Type 0
  pub with_permits : ℕ → Permits
  pub acquire : Permits → Option Permits
  pub release : Permits → Permits

-- Where `main` is: at `select!`, at the `await` of a permit for a connection, at the drain, at the
-- `await` of the last sync, or at an end, with `Ok` or with an error.
pub data Phase : Type 0 where
  accepting waiting draining closing stopped errored : Phase

-- A handler runs from the moment that it is spawned until it has dropped its permit.
pub record Process (lib : Semaphore) : Type 0 where
  pub phase : Phase
  pub handlers : ℕ
  pub permits : lib.Permits
  pub serving : Serving

-- What may happen next. A round of a handler is one event, and so is its end, for whatever reason: the
-- client has gone, an error, a panic, or that it was aborted. The two ways in which `main` returns drop
-- the writer, which writes once more.
pub data Event : Type 0 where
  accepts signals wakes ends drains times_out : Event
  serves : Calls → (RespValue → Str) → Env → ℕ → RespValue → Event
  syncs : IoResult → Event
  accept_fails : WriteOutcome → Event
  last_syncs : IoResult → WriteOutcome → Event

-- There is no task without a writer.
abbrev pub synced_by : IoResult → Option Writer → Option Writer
synced_by answer none = none
synced_by answer (some w) = some (task_syncs answer w)

abbrev pub dropped_by : WriteOutcome → Option Writer → Option Writer
dropped_by outcome none = none
dropped_by outcome (some w) = some (drop_writer outcome w)

module _ (lib : Semaphore) where
  -- `acquire_owned().await`, and the spawn of the handler if there is a permit. The semaphore is closed
  -- only as the loop ends, so that the call does not fail.
  abbrev pub spawn_or_wait : Process lib → Option lib.Permits → Process lib
  spawn_or_wait p none = record p { phase = waiting }
  spawn_or_wait p (some left) = record p {
    phase = accepting;
    handlers = suc p.handlers;
    permits = left;
  }

  abbrev pub on_accept : Phase → Process lib → Process lib
  on_accept accepting p = spawn_or_wait p (lib.acquire p.permits)
  on_accept _ p = p

  abbrev pub on_wake : Phase → Process lib → Process lib
  on_wake waiting p = spawn_or_wait p (lib.acquire p.permits)
  on_wake _ p = p

  -- The return of `main`: all that holds the writer is dropped, the handlers that still run with the
  -- runtime.
  abbrev pub return_from_main : Phase → WriteOutcome → Process lib → Process lib
  return_from_main end outcome p = record p {
    phase = end;
    serving = record p.serving { writer = dropped_by outcome p.serving.writer };
  }

  -- `result?`
  abbrev pub on_accept_error : Phase → WriteOutcome → Process lib → Process lib
  on_accept_error accepting outcome p = return_from_main errored outcome p
  on_accept_error _ outcome p = p

  -- Only `select!` looks at the signal.
  abbrev pub on_signal : Phase → Process lib → Process lib
  on_signal accepting p = record p { phase = draining }
  on_signal _ p = p

  -- `join_next` has no handler left.
  abbrev pub on_drained : Phase → ℕ → Process lib → Process lib
  on_drained draining zero p = record p { phase = closing }
  on_drained _ _ p = p

  -- `abort_all` asks the handlers to stop at their next `await`, and is not awaited.
  abbrev pub on_timeout : Phase → Process lib → Process lib
  on_timeout draining p = record p { phase = closing }
  on_timeout _ p = p

  abbrev pub on_end : ℕ → Process lib → Process lib
  on_end zero p = p
  on_end (suc n) p = record p { handlers = n; permits = lib.release p.permits }

  abbrev pub on_round : ℕ → Serving → Process lib → Process lib
  on_round zero served p = p
  on_round (suc n) served p = record p { serving = served }

  abbrev pub sync_writer : IoResult → Process lib → Process lib
  sync_writer answer p = record p {
    serving = record p.serving { writer = synced_by answer p.serving.writer };
  }

  -- The task ends with the sync that the cancellation makes it do.
  abbrev pub on_tick : Phase → IoResult → Process lib → Process lib
  on_tick stopped answer p = p
  on_tick errored answer p = p
  on_tick _ answer p = sync_writer answer p

  -- the last sync, and the end of `main`
  abbrev pub on_cancel : Phase → IoResult → WriteOutcome → Process lib → Process lib
  on_cancel closing answer outcome p = return_from_main stopped outcome (sync_writer answer p)
  on_cancel _ answer outcome p = p

  -- Nothing runs once `main` has returned.
  abbrev pub is_over : Phase → Process lib → Process lib → Process lib
  is_over stopped p q = p
  is_over errored p q = p
  is_over _ p q = q

  unfoldable pub step : Event → Process lib → Process lib
  unfolding handle_with task_syncs drop_writer
  step accepts p = on_accept p.phase p
  step wakes p = on_wake p.phase p
  step (accept_fails outcome) p = on_accept_error p.phase outcome p
  step signals p = on_signal p.phase p
  step drains p = on_drained p.phase p.handlers p
  step times_out p = on_timeout p.phase p
  step ends p = is_over p.phase p (on_end p.handlers p)
  step (serves calls debug env at frame) p =
      is_over p.phase p (on_round p.handlers (handle_with calls debug env at frame p.serving).1 p)
  step (syncs answer) p = on_tick p.phase answer p
  step (last_syncs answer outcome) p = on_cancel p.phase answer outcome p

  unfoldable pub run : List Event → Process lib → Process lib
  unfolding step
  run [] p = p
  run (e ∷ events) p = run events (step e p)

  -- `main` at its loop
  abbrev pub listening : ℕ → Serving → Process lib
  listening max_connections serving = record {
    phase = accepting;
    handlers = 0;
    permits = lib.with_permits max_connections;
    serving = serving;
  }
