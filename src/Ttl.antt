-- ===== src/Ttl.antt =====
-- crates/thesaurus/src/ttl.rs: the rounds of the eviction daemon and its loop. A round takes the lock
-- twice, to sample and to delete; handlers may run between the two.
pub mod Daemon
pub mod Eviction
use thesaurus.Prelude.{Outcome, done, panicked, ◌==◌, ℕ, List, [], ◌∷◌, Str, leb, if◌then◌else◌}
use thesaurus.Store.{Store, sample_eviction_index, delete_bulk}

-- `N`
abbrev pub sample_size : ℕ
sample_size = 20

-- the loop over the sampled pairs
unfoldable pub keys_to_delete : ℕ → List (Str × ℕ) → List Str
keys_to_delete now [] = []
keys_to_delete now ((key, expiration_instant) ∷ sample_pairs) =
    let rest = keys_to_delete now sample_pairs in
    if leb expiration_instant now then key ∷ rest else rest

-- A whole round; `between` is what the handlers do to the store between the two locks.
unfoldable pub evict_expired :
    (List (Str × ℕ) → ℕ → List (Str × ℕ)) → ℕ → (Store → Store) → Store → Store
unfolding sample_eviction_index keys_to_delete delete_bulk
evict_expired sample now between s =
    delete_bulk (keys_to_delete now (sample_eviction_index sample sample_size s)) (between s)

-- What happens to the daemon's loop: a tick, at which it runs a round with `between` in it, after the
-- handlers have done `before` to the store; or the cancellation.
pub data Event : Type 0 where
  ticks :
      (before : Store → Store) (sample : List (Str × ℕ) → ℕ → List (Str × ℕ)) (now : ℕ)
      (between : Store → Store)
      → Event
  cancels : Event

unfoldable pub daemon_loop : List Event → Store → Store
unfolding evict_expired
daemon_loop [] s = s
daemon_loop (ticks before sample now between ∷ events) s =
    daemon_loop events (evict_expired sample now between (before s))
daemon_loop (cancels ∷ events) s = s

-- `TtlEvictionDaemon::spawn`; the timer of tokio panics for a period of zero.
unfoldable pub spawn : ℕ → List Event → Store → Outcome Store
unfolding daemon_loop
spawn hz events s = if hz == 0 then panicked else done (daemon_loop events s)
