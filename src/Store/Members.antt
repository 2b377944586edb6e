-- ===== src/Store/Members.antt =====
-- The sets of store/set.rs: counts and members after SADD and SREM.
use thesaurus.Prelude.{
  ℕ, ◌+◌, ◌-◌, ◌≡◌, refl, ap, Bool, true, ◌||◌, ◌&&◌, not, Option, none, some, List, [], ◌∷◌, arith,
  Str, str_eq, str_eq_iff, if◌then◌else◌, Result, ok, length,
}
use thesaurus.Errors.{StoreError}
use thesaurus.HashSet
use thesaurus.HashSet.{
  contains, IsDistinct, contains-insert, contains-remove, insert-IsDistinct, remove-IsDistinct,
  length-insert, length-remove, collect_lem,
}
use thesaurus.Map
use thesaurus.Store.{Store, StoreValue, str, list, set, peek}
use thesaurus.Store.Visible.{peek-put}
use thesaurus.Store.Sets.{
  insert_all, remove_all, remove_counting, write_back, is_set_or_missing, add_to, remove_from, sadd,
  srem,
}

pub insert_all_lem :
    (members m : List Str) (x : Str)
    → IsDistinct m
    → (length (insert_all members m).1 ≡ length m + (insert_all members m).0)
      × IsDistinct (insert_all members m).1
      × (contains x (insert_all members m).1 ≡ (contains x members || contains x m))
unfolding insert_all contains
insert_all_lem [] m x d = (omega arith, d, refl)
insert_all_lem (y ∷ members) m x d =
    let (n, e, c) = insert_all_lem members (HashSet.insert y m) x (insert-IsDistinct y m d) in
    (ground (arith, n, length-insert y m), e, ground (arith, c, contains-insert y x m))

pub remove_counting_lem :
    (members m : List Str) (x : Str)
    → IsDistinct m
    → (length (remove_counting members m).1 + (remove_counting members m).0 ≡ length m)
      × IsDistinct (remove_counting members m).1
      × (contains x (remove_counting members m).1 ≡ (contains x m && not (contains x members)))
unfolding remove_counting contains
remove_counting_lem [] m x d = (omega arith, d, ground arith)
remove_counting_lem (y ∷ members) m x d =
    let (n, e, c) = remove_counting_lem members (HashSet.remove y m) x (remove-IsDistinct y m d) in
    (ground (arith, n, length-remove y m), e, ground (arith, c, contains-remove y x m))

pub remove_all_lem :
    (members m : List Str) (x : Str)
    → IsDistinct m
    → IsDistinct (remove_all members m)
      × (contains x (remove_all members m) ≡ (contains x m && not (contains x members)))
unfolding remove_all contains
remove_all_lem [] m x d = (d, ground arith)
remove_all_lem (y ∷ members) m x d =
    let (e, c) = remove_all_lem members (HashSet.remove y m) x (remove-IsDistinct y m d) in
    (e, ground (arith, c, contains-remove y x m))

-- the members that a reader finds, none at a missing key
abbrev pub members_of : Option StoreValue → List Str
members_of none = []
members_of (some (set m)) = m
members_of (some (str t)) = []
members_of (some (list l)) = []

pub peek-write_back :
    (k j : Str) (m : List Str) (w : StoreValue) (now : ℕ) (s : Store)
    → peek k now s ≡ some w
    → peek j now (write_back k m s) ≡ (if str_eq k j then some (set m) else peek j now s)
unfolding peek write_back
peek-write_back k j m w now s h =
    ground (arith, Map.get-insert k j (set m) s.values, str_eq_iff k j)

-- A set of `after` is left at the key, where `before` was: each member as `kept` says, the reply `n`,
-- and every other key as it was.
abbrev pub Leaves :
    Str
    → ℕ
    → Store
    → (List Str → Result StoreError ℕ)
    → (Str → Bool)
    → Result StoreError ℕ × Store
    → Type 0
Leaves k now s reply kept r =
    (m : List Str) × (r.0 ≡ reply m)
    × IsDistinct m
    × ((x : Str) → contains x m ≡ kept x)
    × ((j : Str) → peek j now r.1 ≡ (if str_eq k j then some (set m) else peek j now s))

module _ (k : Str) (members : List Str) (now : ℕ) (s : Store) where
  add_to_lem :
      (o : Option StoreValue)
      → peek k now s ≡ o
      → is_set_or_missing o ≡ true
      → IsDistinct (members_of o)
      → Leaves k now s
          (λ after. ok (length after - length (members_of o)))
          (λ x. contains x members || contains x (members_of o))
          (add_to o k members s)
  unfolding add_to
  add_to_lem none h e d = (
    HashSet.collect [] members,
    ap ok (ground arith),
    (collect_lem members [] [] tt).0,
    λ x. (collect_lem members [] x tt).1,
    λ j. peek-put k j (set (HashSet.collect [] members)) now s,
  )
  add_to_lem (some (set n)) h e d = (
    (insert_all members n).1,
    ap ok (ground (arith, (insert_all_lem members n [] d).0)),
    (insert_all_lem members n [] d).1,
    λ x. (insert_all_lem members n x d).2,
    λ j. peek-write_back k j (insert_all members n).1 (set n) now s h,
  )
  add_to_lem (some (str t)) h e d = ground arith
  add_to_lem (some (list l)) h e d = ground arith

  remove_from_lem :
      (n : List Str)
      → peek k now s ≡ some (set n)
      → IsDistinct n
      → Leaves k now s
          (λ after. ok (length n - length after))
          (λ x. contains x n && not (contains x members))
          (remove_from (some (set n)) k members s)
  unfolding remove_from
  remove_from_lem n h d = (
    (remove_counting members n).1,
    ap ok (ground (arith, (remove_counting_lem members n [] d).0)),
    (remove_counting_lem members n [] d).1,
    λ x. (remove_counting_lem members n x d).2,
    λ j. peek-write_back k j (remove_counting members n).1 (set n) now s h,
  )

  -- SADD to a set or to a missing key: a reader then finds a set whose members are the old ones and
  -- the given ones, none of them twice, the reply is how many more there are than before, and every
  -- other key is as it was.
  pub sadd_lem :
      is_set_or_missing (peek k now s) ≡ true
      → IsDistinct (members_of (peek k now s))
      → Leaves k now s
          (λ after. ok (length after - length (members_of (peek k now s))))
          (λ x. contains x members || contains x (members_of (peek k now s)))
          (sadd k members now s)
  unfolding sadd
  sadd_lem = add_to_lem (peek k now s) refl

  -- SREM at a set: a reader then finds the set, which may be empty, of the members that were not
  -- given, the reply is how many fewer there are than before, and every other key is as it was.
  pub srem_lem :
      (n : List Str)
      → peek k now s ≡ some (set n)
      → IsDistinct n
      → Leaves k now s
          (λ after. ok (length n - length after))
          (λ x. contains x n && not (contains x members))
          (srem k members now s)
  srem_lem n h d = unfold srem in rw h (remove_from_lem n h d)
