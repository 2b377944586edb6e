-- ===== src/Samples/Shutdown.antt =====
-- The loop of the process and its shutdown, with a semaphore that counts.
use thesaurus.Prelude.{
  ℕ, suc, ◌-◌, ◌≤◌, ◌≡◌, refl, Option, none, some, [], ◌∷◌, arith, ltb, if◌then◌else◌,
}
use thesaurus.Config.{every_sec}
use thesaurus.Server.Listen.{
  Semaphore, accepts, signals, ends, drains, serves, syncs, last_syncs, run, listening,
}
use thesaurus.Server.Listen.{step, stopped}
use thesaurus.Server.Listen.Ending.{run_stops}
use thesaurus.Server.Listen.Limits.{Counts, IsLimited, listening-IsLimited}
use thesaurus.Server.Listen.Shutdown.{IsSaved, listening-IsSaved}
use thesaurus.Server.Writer.{succeeded, failed, completes, stops_after, Calls, new}
use thesaurus.Server.Writer.Handling.{Serving}
use thesaurus.Samples.{env, shop, debug}
use thesaurus.Samples.Served.{del_frame}

-- how many are held, and of how many
abbrev acquire : ℕ → ℕ → Option (ℕ × ℕ)
acquire held size = if ltb held size then some (suc held, size) else none

abbrev counter : Semaphore
counter = record {
  Permits = ℕ × ℕ;
  with_permits = λ n. (0, n);
  acquire = λ p. acquire p.0 p.1;
  release = λ p. (p.0 - 1, p.1);
}

counts : Counts counter
counts = record {
  held = λ p. p.0;
  size = λ p. p.1;
  none_held = λ n. (refl, refl);
  of_acquire = λ p q e. acquired p.0 p.1 q.0 q.1 e;
  of_release = λ p. (refl, refl);
}
  where
    acquired : (h n i m : ℕ) → acquire h n ≡ some (i, m) → (i ≡ suc h) × (i ≤ m) × (m ≡ n)
    acquired h n i m e = ground arith

abbrev serving : Serving
serving = record { store = shop; writer = some (new every_sec []) }

listening-IsLimited_example :
    IsLimited counter counts 1
      (run counter (accepts ∷ accepts ∷ ends ∷ []) (listening counter 1 serving))
listening-IsLimited_example =
    listening-IsLimited counter counts 1 serving (accepts ∷ accepts ∷ ends ∷ [])

abbrev all_well : Calls
all_well = record { spill = completes; through = completes; flushes = completes; syncs = succeeded }

listening-IsSaved_example :
    IsSaved
      (run counter
        (accepts
          ∷ serves all_well debug env 0 del_frame
          ∷ syncs succeeded
          ∷ signals
          ∷ ends
          ∷ drains
          ∷ last_syncs succeeded (stops_after 0)
          ∷ [])
        (listening counter 1 serving)).serving.writer
listening-IsSaved_example =
    listening-IsSaved counter 1 serving
      (accepts
        ∷ serves all_well debug env 0 del_frame
        ∷ syncs succeeded
        ∷ signals
        ∷ ends
        ∷ drains
        ∷ last_syncs succeeded (stops_after 0)
        ∷ [])
      (refl, refl, refl) refl (unfold run in refl)

-- one handler when the signal comes, and a connection that is too late
run_stops_example :
    (run counter
      (signals ∷ accepts ∷ ends ∷ drains ∷ last_syncs failed (stops_after 3) ∷ [])
      (step counter accepts (listening counter 2 serving))).phase
    ≡ stopped
unfolding step
run_stops_example =
    run_stops counter (accepts ∷ ends ∷ []) failed (stops_after 3)
      (step counter accepts (listening counter 2 serving)) refl (omega arith)
