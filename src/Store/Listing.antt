-- ===== src/Store/Listing.antt =====
-- Which keys KEYS lists.
use thesaurus.Prelude.{
  ℕ, ◌≡◌, refl, Bool, ◌&&◌, ◌||◌, List, [], ◌∷◌, arith, Str, str_eq, str_eq_iff, filter, is_some,
  Bool-cases, inl, inr,
}
use thesaurus.Map
use thesaurus.Map.{Map}
use thesaurus.HashSet.{contains}
use thesaurus.Pattern.{string_match}
use thesaurus.Store.{Store, peek, keys, is_listed, all_keys}

contains-filter :
    (p : Str → Bool) (k : Str) (l : List Str) → contains k (filter p l) ≡ (contains k l && p k)
unfolding contains
contains-filter p k [] = refl
contains-filter p k (j ∷ l) = elim (Bool-cases (str_eq j k)) [
  | inl e ↦ ground (arith, contains-filter p k l, str_eq_iff j k)
  | inr e ↦ ground (arith, contains-filter p k l)
]

-- KEYS lists a key exactly if a reader finds a value at it and the pattern is the lone star or
-- matches it; no expired key is listed, and none that is alive is left out.
pub contains-keys_listed :
    (pattern k : Str) (now : ℕ) (s : Store)
    → contains k (keys pattern now s)
      ≡ (is_some (peek k now s) && (all_keys pattern || string_match k pattern))
unfolding keys peek
contains-keys_listed pattern k now s =
    rw
      (
        contains-filter (is_listed pattern now s) k (Map.keys s.values),
        Map.contains-keys k s.values,
      )
      (ground arith)
