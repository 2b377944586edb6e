-- ===== src/Map.antt =====
-- `std::collections::HashMap<String, V>` as a list of entries. Iteration follows the list; the real
-- order is unspecified, and no theorem depends on it.
use thesaurus.Prelude.{
  ℕ, Bool, ◌≡◌, refl, Option, none, some, List, [], ◌∷◌, arith, Str, str_eq, str_eq_iff,
  str_eq_refl, if◌then◌else◌, length, is_some,
}
use thesaurus.HashSet

pub record Map {ℓ} (V : Type ℓ) : Type ℓ where
  pub entries : List (Str × V)

module _ {ℓ} {V : Type ℓ} where
  pub find : Str → List (Str × V) → Option V
  find k [] = none
  find k ((j, v) ∷ l) = if str_eq j k then some v else find k l

  pub without : Str → List (Str × V) → List (Str × V)
  without k [] = []
  without k ((j, v) ∷ l) = let rest = without k l in if str_eq j k then rest else (j, v) ∷ rest

  pub firsts : List (Str × V) → List Str
  firsts [] = []
  firsts ((k, v) ∷ l) = k ∷ firsts l

  unfoldable pub empty : Map V
  empty = record { entries = [] }

  -- `m.get(key)`
  unfoldable pub get : Str → Map V → Option V
  unfolding find
  get k m = find k m.entries

  -- `m.contains_key(key)`
  abbrev pub contains_key : Str → Map V → Bool
  contains_key k m = is_some (get k m)

  -- `m.remove(key)`, without the value that it returns
  unfoldable pub remove : Str → Map V → Map V
  unfolding without
  remove k m = record { entries = without k m.entries }

  -- `m.insert(key, value)`
  unfoldable pub insert : Str → V → Map V → Map V
  unfolding without
  insert k v m = record { entries = (k, v) ∷ without k m.entries }

  -- `m.keys()`
  unfoldable pub keys : Map V → List Str
  unfolding firsts
  keys m = firsts m.entries

  -- `m.len()`
  unfoldable pub len : Map V → ℕ
  len m = length m.entries

  pub get-empty : (k : Str) → get k empty ≡ none
  unfolding get empty
  get-empty k = refl

  find-without :
      (k j : Str) (l : List (Str × V))
      → find j (without k l) ≡ (if str_eq k j then none else find j l)
  unfolding find without
  find-without k j [] = ground arith
  find-without k j ((i, v) ∷ l) =
      ground (arith, find-without k j l, str_eq_iff i k, str_eq_iff i j, str_eq_iff k j)

  pub get-remove :
      (k j : Str) (m : Map V) → get j (remove k m) ≡ (if str_eq k j then none else get j m)
  unfolding get remove
  get-remove k j m = find-without k j m.entries

  pub get-insert :
      (k j : Str) (v : V) (m : Map V)
      → get j (insert k v m) ≡ (if str_eq k j then some v else get j m)
  unfolding get insert
  get-insert k j v m = ground (arith, find-without k j m.entries)

  pub get-remove_self : (k : Str) (m : Map V) → get k (remove k m) ≡ none
  get-remove_self k m = ground (arith, get-remove k k m, str_eq_refl k)

  pub get-insert_self : (k : Str) (v : V) (m : Map V) → get k (insert k v m) ≡ some v
  get-insert_self k v m = ground (arith, get-insert k k v m, str_eq_refl k)

  contains-firsts :
      (k : Str) (l : List (Str × V)) → HashSet.contains k (firsts l) ≡ is_some (find k l)
  unfolding HashSet.contains firsts find
  contains-firsts k [] = refl
  contains-firsts k ((j, v) ∷ l) = ground (arith, contains-firsts k l)

  pub contains-keys : (k : Str) (m : Map V) → HashSet.contains k (keys m) ≡ contains_key k m
  unfolding keys get
  contains-keys k m = contains-firsts k m.entries

  without-IsDistinct :
      (k : Str) (l : List (Str × V))
      → HashSet.IsDistinct (firsts l)
      → HashSet.IsDistinct (firsts (without k l))
  unfolding firsts without
  without-IsDistinct k [] d = tt
  without-IsDistinct k ((j, v) ∷ l) d = ground (
    arith,
    without-IsDistinct k l d.1,
    contains-firsts j l,
    contains-firsts j (without k l),
    find-without k j l,
  )

  pub keys-remove-IsDistinct :
      (k : Str) (m : Map V) → HashSet.IsDistinct (keys m) → HashSet.IsDistinct (keys (remove k m))
  unfolding keys remove
  keys-remove-IsDistinct k m d = without-IsDistinct k m.entries d

  pub keys-insert-IsDistinct :
      (k : Str) (v : V) (m : Map V)
      → HashSet.IsDistinct (keys m)
      → HashSet.IsDistinct (keys (insert k v m))
  unfolding keys insert firsts
  keys-insert-IsDistinct k v m d = (
    ground
        (arith, contains-firsts k (without k m.entries), find-without k k m.entries, str_eq_refl k),
    without-IsDistinct k m.entries d,
  )
