-- ===== src/Server/Listen/Shutdown.antt =====
-- What is on the disk when the process has shut down.
use mathlib.Core.List.{append-nil}
use thesaurus.Prelude.{
  ℕ, ◌≡◌, refl, ◌∙◌, Bool-cases, inl, inr, ◌&&◌, Result, ok, err, Outcome, done, panicked, poisoned,
  Bool, true, false, ◌||◌, Option, none, some, List, [], ◌∷◌, arith, Str, take, zero, suc, sym,
  ◌++◌,
}
use thesaurus.Config.{every_sec}
use thesaurus.Resp2.{RespValue}
use thesaurus.Executor.{Env, Response, reply, panic, poison}
use thesaurus.Server.Writer.{
  IoResult, succeeded, failed, WriteOutcome, reaches, flush, Writer, Calls, append, task_syncs,
  drop_writer,
}
use thesaurus.Command.{Command, HandlerError, is_write}
use thesaurus.Command.Parse.{from_resp2}
use thesaurus.Store.{Store}
use thesaurus.Executor.Execute.{execute}
use thesaurus.Server.Handler.{is_logged_reply, log_entry}
use thesaurus.Server.Writer.Durability.{Appends, append-Appends}
use thesaurus.Server.Writer.Success.{any_failing, append-succeeds}
use thesaurus.Server.Writer.Handling.{
  Serving, append_with, respond_with, handle_parsed_with, handle_with,
}
use thesaurus.Server.Listen.{
  Semaphore, Phase, accepting, waiting, draining, closing, stopped, errored, Process, Event,
  accepts, accept_fails, signals, wakes, ends, drains, times_out, serves, syncs, last_syncs,
  synced_by, dropped_by, step, run, listening,
}

-- The drain runs out of time, or a write of an append or a sync fails.
abbrev pub is_rough : Event → Bool
is_rough times_out = true
is_rough (serves calls debug env at frame) = any_failing calls
is_rough (syncs failed) = true
is_rough (last_syncs failed outcome) = true
is_rough _ = false

abbrev pub any_rough : List Event → Bool
any_rough [] = false
any_rough (e ∷ events) = is_rough e || any_rough events

-- a writer in mode `everysec` with nothing in the buffer, as long as no sync has failed
abbrev pub IsReady : Option Writer → Type 0
IsReady none = Unit
IsReady (some w) = (w.fsync_mode ≡ every_sec) × (w.buffer ≡ []) × (w.sync_failed ≡ false)

-- All of the file is on the disk.
abbrev pub IsSaved : Option Writer → Type 0
IsSaved none = Unit
IsSaved (some w) = w.disk ≡ w.kernel

append-IsReady :
    (calls : Calls) (entry : Str) (w : Writer)
    → any_failing calls ≡ false
    → IsReady (some w)
    → IsReady (some (append calls entry w).1)
append-IsReady calls entry w n (m, b, f) =
    kept (append calls entry w) (append-succeeds calls entry w n m) (append-Appends calls entry w)
  where
    kept : (r : IoResult × Writer) → r.0 ≡ succeeded → Appends entry w r → IsReady (some r.1)
    kept (succeeded, v) e (b', _, _, m', f') = (m' ∙ m, b', f' ∙ f)
    kept (failed, v) e a = cc

append_with-IsReady :
    (calls : Calls) (at : ℕ) (cmd : Command) (frame r : RespValue) (o : Option Writer)
    → any_failing calls ≡ false
    → IsReady o
    → IsReady (append_with calls at cmd frame r o)
unfolding append_with
append_with-IsReady calls at cmd frame r none n h = tt
append_with-IsReady calls at cmd frame r (some w) n h =
    elim (Bool-cases (is_write cmd && is_logged_reply r)) [
      | inl logged ↦ rw logged (append-IsReady calls (log_entry at cmd frame) w n h)
      | inr not_logged ↦ rw not_logged h
    ]

handle_with-IsReady :
    (calls : Calls) (debug : RespValue → Str) (env : Env) (at : ℕ) (frame : RespValue)
    (server : Serving)
    → any_failing calls ≡ false
    → IsReady server.writer
    → IsReady (handle_with calls debug env at frame server).1.writer
unfolding handle_with
handle_with-IsReady calls debug env at frame server n h = parsed (from_resp2 frame)
  where
    responded :
        (cmd : Command) (r : Response × Store)
        → IsReady (respond_with calls at cmd frame server.writer r).1.writer
    responded cmd (reply v, s) = append_with-IsReady calls at cmd frame v server.writer n h
    responded cmd (panic, s) = h
    responded cmd (poison, s) = h

    parsed :
        (r : Outcome (Result HandlerError Command))
        → IsReady (handle_parsed_with calls debug env at frame r server).1.writer
    parsed (done (ok cmd)) = responded cmd (execute env cmd server.store)
    parsed (done (err e)) = h
    parsed panicked = h
    parsed poisoned = h

synced_by-IsReady : (o : Option Writer) → IsReady o → IsReady (synced_by succeeded o)
unfolding task_syncs
synced_by-IsReady none h = tt
synced_by-IsReady (some w) h = ground (arith, h)

dropped_by-IsReady :
    (outcome : WriteOutcome) (o : Option Writer) → IsReady o → IsReady (dropped_by outcome o)
unfolding drop_writer
dropped_by-IsReady outcome none h = tt
dropped_by-IsReady outcome (some w) (m, b, f) = (m, refl, f)

-- The last write has nothing to write.
synced_by-IsSaved :
    (outcome : WriteOutcome) (o : Option Writer)
    → IsReady o
    → IsSaved (dropped_by outcome (synced_by succeeded o))
unfolding task_syncs drop_writer flush
synced_by-IsSaved outcome none h = tt
synced_by-IsSaved outcome (some w) (m, b, f) = rw (m, f, b) (nothing (reaches outcome 0).1)
  where
    nothing : (n : ℕ) → w.kernel ≡ w.kernel ++ take n []
    nothing zero = sym (append-nil w.kernel)
    nothing (suc n) = sym (append-nil w.kernel)

module _ (lib : Semaphore) where
  -- No handler runs when the last sync is done, and nothing is written behind it.
  abbrev IsOrderly : Phase → Process lib → Type 0
  IsOrderly closing p = p.handlers ≡ 0
  IsOrderly stopped p = IsSaved p.serving.writer
  IsOrderly _ p = Unit

  abbrev IsSafe : Process lib → Type 0
  IsSafe p = IsReady p.serving.writer × IsOrderly p.phase p

  step-IsSafe :
      (e : Event) (p : Process lib) → is_rough e ≡ false → IsSafe p → IsSafe (step lib e p)
  unfolding step
  step-IsSafe accepts p n h = ground (arith, h)
  step-IsSafe wakes p n h = ground (arith, h)
  step-IsSafe (accept_fails outcome) p n h =
      ground (arith, h, dropped_by-IsReady outcome p.serving.writer h.0)
  step-IsSafe signals p n h = ground (arith, h)
  step-IsSafe drains p n h = ground (arith, h)
  step-IsSafe times_out p n h = cc
  step-IsSafe ends p n h = ground (arith, h)
  step-IsSafe (serves calls debug env at frame) p n h =
      ground (arith, h, handle_with-IsReady calls debug env at frame p.serving n h.0)
  step-IsSafe (syncs succeeded) p n h = ground (arith, h, synced_by-IsReady p.serving.writer h.0)
  step-IsSafe (syncs failed) p n h = cc
  step-IsSafe (last_syncs succeeded outcome) p n h = ground (
    arith,
    h,
    dropped_by-IsReady outcome _ (synced_by-IsReady p.serving.writer h.0),
    synced_by-IsSaved outcome p.serving.writer h.0,
  )
  step-IsSafe (last_syncs failed outcome) p n h = cc

  run-IsSafe :
      (events : List Event) (p : Process lib)
      → any_rough events ≡ false
      → IsSafe p
      → IsSafe (run lib events p)
  unfolding run
  run-IsSafe [] p n h = h
  run-IsSafe (e ∷ events) p n h =
      run-IsSafe events (step lib e p) (ground arith) (step-IsSafe e p (ground arith) h)

  -- In mode `everysec`, with a writer, if there is one, that has nothing in its buffer and none of whose
  -- syncs has failed: if the process shuts down within the time for the drain, and no write and no sync
  -- of the append-only file fails, all of the file is on the disk when the process has stopped and the
  -- writer is dropped, whatever the clients and the signals did before, and in whatever order.
  pub listening-IsSaved :
      (max_connections : ℕ) (serving : Serving) (events : List Event)
      → IsReady serving.writer
      → any_rough events ≡ false
      → (run lib events (listening lib max_connections serving)).phase ≡ stopped
      → IsSaved (run lib events (listening lib max_connections serving)).serving.writer
  listening-IsSaved n serving events m r e =
      orderly _ _ e (run-IsSafe events (listening lib n serving) r (m, tt)).1
    where
      orderly :
          (ph : Phase) (p : Process lib) → ph ≡ stopped → IsOrderly ph p → IsSaved p.serving.writer
      orderly stopped p e h = h
      orderly accepting p e h = cc
      orderly waiting p e h = cc
      orderly draining p e h = cc
      orderly closing p e h = cc
      orderly errored p e h = cc
