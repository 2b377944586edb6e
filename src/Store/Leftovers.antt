-- ===== src/Store/Leftovers.antt =====
-- What the operations of the store leave behind in the expiry index.
use thesaurus.Prelude.{
  drop_all, ℕ, ◌≤◌, ◌≡◌, refl, none, some, List, [], ◌∷◌, arith, Str, ok, done, length, drop, ltb,
  take, false,
}
use thesaurus.Map
use thesaurus.Store.{Store, list, peek, get_ttl}
use thesaurus.Store.Lists.{lpop, pop_inner, pop_from, leave_rest, max_capacity}
use thesaurus.Store.Queues.{pop_loop-pop_front}

-- An LPOP that takes every element of a list with a deadline, with a count whose buffer can be
-- allocated, removes the key from the values, but the deadline stays in the expiry index, where TTL
-- looks.
pub lpop_leaves_deadline :
    (k : Str) (count now deadline : ℕ) (x : Str) (l : List Str) (s : Store)
    → peek k now s ≡ some (list (x ∷ l))
    → get_ttl k s ≡ some deadline
    → length (x ∷ l) ≤ count
    → count ≤ max_capacity
    → (s' : Store) × (lpop k count now s ≡ done (ok (some (take count (x ∷ l))), s'))
      × (Map.get k s'.values ≡ none)
      × (get_ttl k s' ≡ some deadline)
lpop_leaves_deadline k count now deadline x l s h d n c = (
  leave_rest k [] s,
  unfold lpop pop_inner pop_from in rw (fits, h, pop_loop-pop_front count (x ∷ l), all) refl,
  unfold leave_rest in ground (arith, Map.get-remove_self k s.values),
  unfold leave_rest get_ttl in d,
)
  where
    fits : ltb max_capacity count ≡ false
    fits = ground arith

    all : drop count (x ∷ l) ≡ []
    all = drop_all count (x ∷ l) n
