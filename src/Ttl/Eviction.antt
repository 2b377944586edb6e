-- ===== src/Ttl/Eviction.antt =====
-- The eviction daemon of ttl.rs, as the readers of the store see it.
use thesaurus.Prelude.{
  ℕ, ◌≤◌, ◌≡◌, true, none, some, List, [], ◌∷◌, arith, Str, str_eq_iff, str_eq_refl,
}
use thesaurus.Map
use thesaurus.Store.{Store, StoreValue, peek, put, delete_bulk, sample_eviction_index}
use thesaurus.Store.Visible.{peek-put, peek-delete_bulk, is_among}
use thesaurus.Ttl.{sample_size, keys_to_delete, evict_expired}

-- The pairs are entries of the expiry index, as those of a sample of it are.
abbrev pub AreEntries : List (Str × ℕ) → Store → Type 0
AreEntries [] s = Unit
AreEntries ((k, deadline) ∷ pairs) s =
    (Map.get k s.expiry_index ≡ some deadline) × AreEntries pairs s

among_expired :
    (pairs : List (Str × ℕ)) (j : Str) (now t : ℕ) (s : Store)
    → AreEntries pairs s
    → now ≤ t
    → is_among j (keys_to_delete now pairs) ≡ true
    → peek j t s ≡ none
unfolding keys_to_delete peek
among_expired [] j now t s a l e = ground arith
among_expired ((k, deadline) ∷ pairs) j now t s (h, a) l e =
    ground (arith, among_expired pairs j now t s a l, str_eq_iff k j)

-- A round of the daemon between whose two locks nothing runs changes nothing that a reader finds,
-- now or later, whatever it samples from the expiry index.
pub evict_expired_lem :
    (sample : List (Str × ℕ) → ℕ → List (Str × ℕ)) (j : Str) (now t : ℕ) (s : Store)
    → AreEntries (sample_eviction_index sample sample_size s) s
    → now ≤ t
    → peek j t (evict_expired sample now (λ s. s) s) ≡ peek j t s
unfolding evict_expired
evict_expired_lem sample j now t s a l = ground (
  arith,
  peek-delete_bulk (keys_to_delete now (sample_eviction_index sample sample_size s)) j t s,
  among_expired (sample_eviction_index sample sample_size s) j now t s a l,
)

sampled-is_among :
    (k : Str) (deadline now : ℕ) (pairs : List (Str × ℕ))
    → deadline ≤ now
    → is_among k (keys_to_delete now ((k, deadline) ∷ pairs)) ≡ true
unfolding keys_to_delete
sampled-is_among k deadline now pairs l = ground (arith, str_eq_refl k)

-- A value written between the two locks, to a key that was sampled with a deadline that had passed,
-- is lost: the daemon deletes the key though a reader found the new value before.
pub evict_expired_loses :
    (sample : List (Str × ℕ) → ℕ → List (Str × ℕ)) (pairs : List (Str × ℕ)) (k : Str)
    (v : StoreValue) (deadline now t : ℕ) (s : Store)
    → sample_eviction_index sample sample_size s ≡ (k, deadline) ∷ pairs
    → deadline ≤ now
    → (peek k t (put k v s) ≡ some v) × (peek k t (evict_expired sample now (put k v) s) ≡ none)
evict_expired_loses sample pairs k v deadline now t s e l =
    (ground (arith, peek-put k k v t s, str_eq_refl k), unfold evict_expired in rw e lost)
  where
    lost : peek k t (delete_bulk (keys_to_delete now ((k, deadline) ∷ pairs)) (put k v s)) ≡ none
    lost = ground (
      arith,
      peek-delete_bulk (keys_to_delete now ((k, deadline) ∷ pairs)) k t (put k v s),
      sampled-is_among k deadline now pairs l,
    )
