-- ===== src/HashSet.antt =====
-- `std::collections::HashSet<String>` as the list of its members.
use thesaurus.Prelude.{
  ◌+◌, Bool, true, false, ◌||◌, ◌≡◌, refl, List, [], ◌∷◌, arith, Str, str_eq, str_eq_iff,
  if◌then◌else◌, length,
}

-- `s.contains(member)`
unfoldable pub contains : Str → List Str → Bool
contains x [] = false
contains x (y ∷ s) = str_eq y x || contains x s

-- `s.insert(member)`, without the flag that it returns: the negation of `contains`
unfoldable pub insert : Str → List Str → List Str
insert x s = if contains x s then s else x ∷ s

-- `s.remove(member)`, without the flag that it returns
unfoldable pub remove : Str → List Str → List Str
remove x [] = []
remove x (y ∷ s) = let rest = remove x s in if str_eq y x then rest else y ∷ rest

-- `iter.collect::<HashSet<String>>()`
unfoldable pub collect : List Str → List Str → List Str
collect s [] = s
collect s (x ∷ xs) = collect (insert x s) xs

-- No member stands twice in the list.
abbrev pub IsDistinct : List Str → Type 0
IsDistinct [] = Unit
IsDistinct (x ∷ s) = (contains x s ≡ false) × IsDistinct s

pub contains-insert :
    (x y : Str) (s : List Str) → contains y (insert x s) ≡ (str_eq x y || contains y s)
unfolding contains insert
contains-insert x y s = go (contains x s) refl
  where
    go :
        (b : Bool)
        → contains x s ≡ b
        → contains y (if b then s else x ∷ s) ≡ (str_eq x y || contains y s)
    go true e = ground (arith, str_eq_iff x y)
    go false e = refl

pub contains-remove :
    (x y : Str) (s : List Str)
    → contains y (remove x s) ≡ (if str_eq x y then false else contains y s)
unfolding contains remove
contains-remove x y [] = ground arith
contains-remove x y (z ∷ s) =
    ground (arith, contains-remove x y s, str_eq_iff z x, str_eq_iff z y, str_eq_iff x y)

pub insert-IsDistinct : (x : Str) (s : List Str) → IsDistinct s → IsDistinct (insert x s)
unfolding insert
insert-IsDistinct x s d = ground arith

pub remove-IsDistinct : (x : Str) (s : List Str) → IsDistinct s → IsDistinct (remove x s)
unfolding remove
remove-IsDistinct x [] d = tt
remove-IsDistinct x (y ∷ s) d =
    ground (arith, remove-IsDistinct x s, contains-remove x y s, str_eq_iff x y)

remove_absent : (x : Str) (s : List Str) → contains x s ≡ false → remove x s ≡ s
unfolding remove contains
remove_absent x [] h = refl
remove_absent x (y ∷ s) h = ground (arith, remove_absent x s)

-- Removing a member of a set makes it one smaller.
pub length-remove :
    (x : Str) (s : List Str)
    → IsDistinct s
    → length s ≡ length (remove x s) + (if contains x s then 1 else 0)
unfolding remove contains
length-remove x [] d = refl
length-remove x (y ∷ s) d = ground (arith, length-remove x s, remove_absent x s, str_eq_iff y x)

-- Inserting what is no member makes the set one larger.
pub length-insert :
    (x : Str) (s : List Str) → length (insert x s) ≡ length s + (if contains x s then 0 else 1)
unfolding insert
length-insert x s = ground arith

-- What `collect` gathers: distinct members, those of the list and of the set it began with.
pub collect_lem :
    (xs s : List Str) (y : Str)
    → IsDistinct s
    → IsDistinct (collect s xs) × (contains y (collect s xs) ≡ (contains y xs || contains y s))
unfolding collect
collect_lem [] s y d = (d, unfold contains in refl)
collect_lem (x ∷ xs) s y d =
    let (e, c) = collect_lem xs (insert x s) y (insert-IsDistinct x s d) in
    (e, rw (c, contains-insert x y s) (unfold contains in ground arith))
