-- ===== src/Ttl/Daemon.antt =====
-- The loop of the eviction daemon, as the readers of the store see it.
use thesaurus.Prelude.{ℕ, ◌≤◌, ◌≡◌, refl, ◌∙◌, List, [], ◌∷◌, arith, Str, map, done, false, ◌==◌}
use thesaurus.Store.{Store, peek, sample_eviction_index}
use thesaurus.Ttl.{sample_size, evict_expired, Event, ticks, daemon_loop, spawn}
use thesaurus.Ttl.Eviction.{AreEntries, evict_expired_lem}

-- a sample of the expiry index and the time of the round
abbrev pub Round : Type 0
Round = (List (Str × ℕ) → ℕ → List (Str × ℕ)) × ℕ

-- rounds while no handler writes
abbrev pub quiet : Round → Event
quiet (sample, now) = ticks (λ s. s) sample now (λ s. s)

-- Each round up to the time `t` samples entries of the expiry index that the one before has left.
abbrev pub AreRounds : ℕ → List Round → Store → Type 0
AreRounds t [] s = Unit
AreRounds t ((sample, now) ∷ rounds) s =
    (now ≤ t)
    × AreEntries (sample_eviction_index sample sample_size s) s
    × AreRounds t rounds (evict_expired sample now (λ s. s) s)

daemon_loop_lem :
    (rounds : List Round) (j : Str) (t : ℕ) (s : Store)
    → AreRounds t rounds s
    → peek j t (daemon_loop (map quiet rounds) s) ≡ peek j t s
unfolding daemon_loop
daemon_loop_lem [] j t s h = refl
daemon_loop_lem ((sample, now) ∷ rounds) j t s (l, a, h) =
    daemon_loop_lem rounds j t (evict_expired sample now (λ s. s) s) h
    ∙ evict_expired_lem sample j now t s a l

-- However many rounds the daemon runs while no handler writes to the store, and whatever it samples
-- from the expiry index, it changes nothing that a reader finds, now or later. Its interval must not
-- be zero.
pub spawn_lem :
    (hz : ℕ) (rounds : List Round) (j : Str) (t : ℕ) (s : Store)
    → 1 ≤ hz
    → AreRounds t rounds s
    → (u : Store) × (spawn hz (map quiet rounds) s ≡ done u) × (peek j t u ≡ peek j t s)
spawn_lem hz rounds j t s l h = (
  daemon_loop (map quiet rounds) s,
  unfold spawn in rw ticking refl,
  daemon_loop_lem rounds j t s h,
)
  where
    ticking : (hz == 0) ≡ false
    ticking = ground arith
