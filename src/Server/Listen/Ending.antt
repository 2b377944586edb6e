-- ===== src/Server/Listen/Ending.antt =====
-- The process comes to its end.
use thesaurus.Prelude.{ℕ, ◌+◌, ◌≤◌, ◌≡◌, refl, ap, ◌∙◌, List, [], ◌∷◌, ◌++◌, arith}
use thesaurus.Server.Writer.{IoResult, WriteOutcome}
use thesaurus.Server.Listen.{
  Semaphore, Phase, accepting, draining, closing, stopped, Process, Event, accepts, accept_fails,
  signals, wakes, ends, drains, times_out, serves, syncs, last_syncs, step, run,
}

abbrev ended_by : Event → ℕ
ended_by ends = 1
ended_by _ = 0

-- how many handlers end
abbrev pub count_ends : List Event → ℕ
count_ends [] = 0
count_ends (e ∷ events) = ended_by e + count_ends events

module _ (lib : Semaphore) where
  -- `main` is behind its loop; in the drain, `n` ends of handlers are enough.
  abbrev IsLeaving : ℕ → Phase → Process lib → Type 0
  IsLeaving n draining p = p.handlers ≤ n
  IsLeaving n closing p = Unit
  IsLeaving n stopped p = Unit
  IsLeaving n _ p = ⊥

  step-IsLeaving :
      (n : ℕ) (e : Event) (p : Process lib)
      → IsLeaving (ended_by e + n) p.phase p
      → IsLeaving n (step lib e p).phase (step lib e p)
  unfolding step
  step-IsLeaving n accepts p h = ground (arith, h)
  step-IsLeaving n wakes p h = ground (arith, h)
  step-IsLeaving n (accept_fails outcome) p h = ground (arith, h)
  step-IsLeaving n signals p h = ground (arith, h)
  step-IsLeaving n drains p h = ground (arith, h)
  step-IsLeaving n times_out p h = ground (arith, h)
  step-IsLeaving n ends p h = ground (arith, h)
  step-IsLeaving n (serves calls debug env at frame) p h = ground (arith, h)
  step-IsLeaving n (syncs answer) p h = ground (arith, h)
  step-IsLeaving n (last_syncs answer outcome) p h = ground (arith, h)

  run-IsLeaving :
      (events : List Event) (p : Process lib)
      → IsLeaving (count_ends events) p.phase p
      → IsLeaving 0 (run lib events p).phase (run lib events p)
  unfolding run
  run-IsLeaving [] p h = h
  run-IsLeaving (e ∷ events) p h =
      run-IsLeaving events (step lib e p) (step-IsLeaving (count_ends events) e p h)

  run-append :
      (events more : List Event) (p : Process lib)
      → run lib (events ++ more) p ≡ run lib more (run lib events p)
  unfolding run
  run-append [] more p = refl
  run-append (e ∷ events) more p = run-append events more (step lib e p)

  last_steps :
      (answer : IoResult) (outcome : WriteOutcome) (p : Process lib)
      → IsLeaving 0 p.phase p
      → (run lib (drains ∷ last_syncs answer outcome ∷ []) p).phase ≡ stopped
  unfolding run step
  last_steps answer outcome p h = ground (arith, h)

  -- A signal that finds `main` at `select!` makes the process stop: once as many handlers have ended as
  -- ran at the signal, whatever else happens before, after or in between, the drain is over, and after
  -- the last sync, whatever it and the last write answer, the process has stopped.
  pub run_stops :
      (events : List Event) (answer : IoResult) (outcome : WriteOutcome) (p : Process lib)
      → p.phase ≡ accepting
      → p.handlers ≤ count_ends events
      → (run lib (signals ∷ (events ++ drains ∷ last_syncs answer outcome ∷ [])) p).phase ≡ stopped
  unfolding run
  run_stops events answer outcome p a h =
      ap (λ q. q.phase)
        (run-append events (drains ∷ last_syncs answer outcome ∷ []) (step lib signals p))
      ∙ last_steps answer outcome (run lib events (step lib signals p))
          (run-IsLeaving events (step lib signals p) (unfold step in ground (arith, a, h)))
