-- ===== src/Server/Listen/Limits.antt =====
-- How many handlers run at a time, and when `main` looks at a signal.
use thesaurus.Prelude.{
  ℕ, zero, suc, ◌-◌, ◌≤◌, ◌≡◌, refl, Bool, true, false, ◌||◌, sym, none, some, List, [], ◌∷◌, arith,
  Option-cases, inl, inr,
}
use thesaurus.Server.Writer.Handling.{Serving}
use thesaurus.Server.Listen.{
  Semaphore, waiting, Process, Event, accepts, accept_fails, signals, wakes, ends, drains,
  times_out, serves, syncs, last_syncs, spawn_or_wait, on_end, step, run, listening,
}

abbrev pub is_end : Event → Bool
is_end ends = true
is_end _ = false

abbrev pub any_end : List Event → Bool
any_end [] = false
any_end (e ∷ events) = is_end e || any_end events

-- What the documentation says of a semaphore: as many permits can be held as it was made with.
pub record Counts (lib : Semaphore) : Type 0 where
  pub held : lib.Permits → ℕ
  pub size : lib.Permits → ℕ
  pub none_held : (n : ℕ) → (held (lib.with_permits n) ≡ 0) × (size (lib.with_permits n) ≡ n)
  pub of_acquire :
      (p q : lib.Permits)
      → lib.acquire p ≡ some q
      → (held q ≡ suc (held p)) × (held q ≤ size q) × (size q ≡ size p)
  pub of_release :
      (p : lib.Permits) → (held (lib.release p) ≡ held p - 1) × (size (lib.release p) ≡ size p)

module _ (lib : Semaphore) (doc : Counts lib) where
  -- Each handler holds a permit.
  abbrev pub IsLimited : ℕ → Process lib → Type 0
  IsLimited max_connections p =
      (p.handlers ≡ doc.held p.permits)
      × (p.handlers ≤ max_connections)
      × (doc.size p.permits ≡ max_connections)

  spawn_or_wait-IsLimited :
      (n : ℕ) (p : Process lib)
      → IsLimited n p
      → IsLimited n (spawn_or_wait lib p (lib.acquire p.permits))
  spawn_or_wait-IsLimited n p h = elim (Option-cases (lib.acquire p.permits)) [
    | inl none_left ↦ rw none_left h
    | inr (left, e) ↦
        let (held, within, size) = doc.of_acquire p.permits left e in rw e (omega (arith, h, size))
  ]

  on_end-IsLimited :
      (n k : ℕ) (p : Process lib) → p.handlers ≡ k → IsLimited n p → IsLimited n (on_end lib k p)
  on_end-IsLimited n zero p e h = h
  on_end-IsLimited n (suc k) p e h =
      let (held, size) = doc.of_release p.permits in omega (arith, h, held, size)

  step-IsLimited :
      (n : ℕ) (e : Event) (p : Process lib) → IsLimited n p → IsLimited n (step lib e p)
  unfolding step
  step-IsLimited n accepts p h = ground (arith, h, spawn_or_wait-IsLimited n p h)
  step-IsLimited n wakes p h = ground (arith, h, spawn_or_wait-IsLimited n p h)
  step-IsLimited n (accept_fails outcome) p h = ground (arith, h)
  step-IsLimited n signals p h = ground (arith, h)
  step-IsLimited n drains p h = ground (arith, h)
  step-IsLimited n times_out p h = ground (arith, h)
  step-IsLimited n ends p h = ground (arith, h, on_end-IsLimited n p.handlers p refl h)
  step-IsLimited n (serves calls debug env at frame) p h = ground (arith, h)
  step-IsLimited n (syncs answer) p h = ground (arith, h)
  step-IsLimited n (last_syncs answer outcome) p h = ground (arith, h)

  run-IsLimited :
      (n : ℕ) (events : List Event) (p : Process lib)
      → IsLimited n p
      → IsLimited n (run lib events p)
  unfolding run
  run-IsLimited n [] p h = h
  run-IsLimited n (e ∷ events) p h = run-IsLimited n events (step lib e p) (step-IsLimited n e p h)

  -- Whatever happens, and in whatever order, at most `max_connections` handlers run at a time, and the
  -- permits that are held are theirs, one each: none is lost when a handler ends. This takes the
  -- semaphore to count as its documentation says.
  pub listening-IsLimited :
      (max_connections : ℕ) (serving : Serving) (events : List Event)
      → IsLimited max_connections (run lib events (listening lib max_connections serving))
  listening-IsLimited n serving events =
      let (held, size) = doc.none_held n in
      run-IsLimited n events (listening lib n serving) (sym held, omega arith, size)

module _ (lib : Semaphore) where
  abbrev IsStuck : Process lib → Type 0
  IsStuck p = (p.phase ≡ waiting) × (lib.acquire p.permits ≡ none)

  step-IsStuck :
      (e : Event) (p : Process lib) → is_end e ≡ false → IsStuck p → IsStuck (step lib e p)
  unfolding step
  step-IsStuck accepts p n h = ground (arith, h)
  step-IsStuck wakes p n h = ground (arith, h)
  step-IsStuck (accept_fails outcome) p n h = ground (arith, h)
  step-IsStuck signals p n h = ground (arith, h)
  step-IsStuck drains p n h = ground (arith, h)
  step-IsStuck times_out p n h = ground (arith, h)
  step-IsStuck ends p n h = cc
  step-IsStuck (serves calls debug env at frame) p n h = ground (arith, h)
  step-IsStuck (syncs answer) p n h = ground (arith, h)
  step-IsStuck (last_syncs answer outcome) p n h = ground (arith, h)

  -- While `main` waits for a permit for a connection that it has accepted, and none is left, it looks
  -- at no signal: until a handler ends, it stays there, whatever else happens, however often it is
  -- told to shut down.
  pub run_stuck :
      (events : List Event) (p : Process lib)
      → p.phase ≡ waiting
      → lib.acquire p.permits ≡ none
      → any_end events ≡ false
      → (run lib events p).phase ≡ waiting
  unfolding run
  run_stuck [] p w a n = w
  run_stuck (e ∷ events) p w a n =
      let (w', a') = step-IsStuck e p (ground arith) (w, a) in
      run_stuck events (step lib e p) w' a' (ground arith)
