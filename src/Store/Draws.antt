-- ===== src/Store/Draws.antt =====
-- SPOP and SRANDMEMBER of store/set.rs, against what the crate `rand` documents of its draws.
use thesaurus.Prelude.{
  ℕ, zero, suc, ◌+◌, ◌<◌, ◌≡◌, refl, ◌∙◌, ap, Bool, true, false, ◌||◌, ◌&&◌, Option, some, List, [],
  ◌∷◌, arith, Str, str_eq, str_eq_iff, if◌then◌else◌, Result, ok, leb, length, get_elem?, ◌≤◌,
  Outcome, done,
}
use thesaurus.Errors.{StoreError}
use thesaurus.HashSet
use thesaurus.HashSet.{contains, IsDistinct, contains-remove, remove-IsDistinct, length-remove}
use thesaurus.Store.{Store, set, peek}
use thesaurus.Store.Members.{remove_all_lem}
use thesaurus.Store.Moves.{set_or_none, peek-leave_members}
use thesaurus.Store.Lists.{max_capacity}
use thesaurus.Store.Sets.{
  Rng, remove_all, leave_members, take_popped, unwrap_or, pop_members, spop, draw, all_some,
  random_members, srandmember,
}

-- what is asked for, or all
abbrev IsSample : List Str → ℕ → List Str → Type 0
IsSample m n l =
    ((x : Str) → contains x l ≡ true → contains x m ≡ true)
    × (IsDistinct m → IsDistinct l)
    × (length l ≡ (if leb n (length m) then n else length m))

-- `IteratorRandom::sample` takes members, none of them twice if none stands twice in the source, as
-- many as asked for or all, as long as a vector has room for as many as are asked for;
-- `random_range(0..n)` is below `n`.
pub record IsRandom (rng : Rng) : Type 0 where
  pub sample-IsSample :
      (m : List Str) (n : ℕ)
      → n ≤ max_capacity
      → (l : List Str) × (rng.sample m n ≡ some l) × IsSample m n l
  pub in_range : (i n : ℕ) → 0 < n → rng.random_range i n < n

length-remove_all :
    (popped m : List Str)
    → IsDistinct popped
    → IsDistinct m
    → ((x : Str) → contains x popped ≡ true → contains x m ≡ true)
    → length popped + length (remove_all popped m) ≡ length m
unfolding remove_all
length-remove_all [] m p d h = omega arith
length-remove_all (y ∷ popped) m (n, p) d h = ground (
  arith,
  length-remove_all popped (HashSet.remove y m) p (remove-IsDistinct y m d) left,
  length-remove y m d,
  h y first,
)
  where
    first : contains y (y ∷ popped) ≡ true
    first = unfold contains in ground (arith, str_eq_iff y y)

    left : (x : Str) → contains x popped ≡ true → contains x (HashSet.remove y m) ≡ true
    left x c =
        ground (arith, contains-remove y x m, str_eq_iff y x, h x (unfold contains in ground arith))

-- What SPOP of `n` members makes of the set `m` at the key: members are taken, as many as asked for
-- or all, none of them twice, the others are left, and every other key is as it was.
abbrev pub Pops :
    Str
    → ℕ
    → Store
    → List Str
    → ℕ
    → Outcome (Result StoreError (Option (List Str)) × Store)
    → Type 0
Pops k now s m n r =
    (popped : List Str) × (rest : List Str) × (s' : Store) × (r ≡ done (ok (some popped), s'))
    × IsDistinct popped
    × IsDistinct rest
    × (length popped ≡ (if leb n (length m) then n else length m))
    × (length popped + length rest ≡ length m)
    × ((x : Str) → contains x m ≡ (contains x popped || contains x rest))
    × ((j : Str) → peek j now s' ≡ (if str_eq k j then set_or_none rest else peek j now s))

-- SPOP where a set is found, no member of which stands twice, of as many members as a vector has room
-- for, with draws as `rand` documents them: the reply is members of it, as many as asked for or all,
-- none of them twice; a reader then finds the others, or nothing if none is left, and every other key
-- as it was.
pub spop_lem :
    (rng : Rng) (k : Str) (count : Option ℕ) (now : ℕ) (s : Store) (m : List Str)
    → IsRandom rng
    → peek k now s ≡ some (set m)
    → IsDistinct m
    → unwrap_or count 1 ≤ max_capacity
    → Pops k now s m (unwrap_or count 1) (spop rng k count now s)
unfolding spop pop_members take_popped
spop_lem rng k count now s m r h d fits =
    let (popped, e, (within, distinct, size)) = r.sample-IsSample m (unwrap_or count 1) fits in
    rw (h, e)
      (
        popped,
        remove_all popped m,
        leave_members k (remove_all popped m) s,
        refl,
        distinct d,
        (remove_all_lem popped m [] d).0,
        size,
        length-remove_all popped m (distinct d) d within,
        λ x. ground (arith, (remove_all_lem popped m x d).1, within x),
        λ j. peek-leave_members k j (remove_all popped m) (set m) now s h,
      )

get_elem?_member :
    (m : List Str) (i : ℕ)
    → i < length m
    → (x : Str) × (get_elem? m i ≡ some x) × (contains x m ≡ true)
unfolding contains
get_elem?_member [] i h = absurd (omega arith)
get_elem?_member (y ∷ m) zero h = (y, refl, ground (arith, str_eq_iff y y))
get_elem?_member (y ∷ m) (suc i) h =
    let (x, e, c) = get_elem?_member m i (omega arith) in (x, e, ground (arith, c))

-- members drawn with repetition
draw_lem :
    (rng : Rng) (m : List Str) (i amount : ℕ)
    → IsRandom rng
    → 0 < length m
    → (l : List Str) × (all_some (draw rng m i amount) ≡ some l)
      × (length l ≡ amount)
      × ((x : Str) → contains x l ≡ true → contains x m ≡ true)
unfolding draw all_some
draw_lem rng m i zero r h = ([], refl, refl, λ x c. unfold contains in ground arith)
draw_lem rng m i (suc amount) r h =
    let (y, e, c) =
      get_elem?_member m (rng.random_range i (length m)) (r.in_range i (length m) h) in
    let (l, f, n, k) = draw_lem rng m (suc i) amount r h in
    (y ∷ l, rw (e, f) refl, ap suc n, λ x d. drawn x y l c d (k x))
  where
    drawn :
        (x y : Str) (l : List Str)
        → contains y m ≡ true
        → contains x (y ∷ l) ≡ true
        → (contains x l ≡ true → contains x m ≡ true)
        → contains x m ≡ true
    drawn x y l c d k = unfold contains in ground (arith, str_eq_iff y x, k)

-- Some of the members of `m`: with repetition as many as asked for, unless there are none, without
-- repetition as many as asked for or all, none of them twice.
abbrev pub ArePicked : List Str → ℕ → Bool → List Str → Type 0
ArePicked m n allow_repetition l =
    ((x : Str) → contains x l ≡ (contains x l && contains x m))
    × (length l ≡ (
        if allow_repetition
        then if leb 1 (length m) then n else 0
        else if leb n (length m)
        then n
        else length m))
    × IsDistinct (if allow_repetition then [] else l)

random_members-ArePicked :
    (rng : Rng) (m : List Str) (n : ℕ) (allow_repetition : Bool)
    → IsRandom rng
    → IsDistinct m
    → n ≤ max_capacity
    → (l : List Str) × (random_members rng m n allow_repetition ≡ some l)
      × ArePicked m n allow_repetition l
unfolding random_members
random_members-ArePicked rng [] n true r d fits = ([], refl, (λ x. ground arith, refl, tt))
random_members-ArePicked rng (y ∷ m) n true r d fits =
    let (l, e, f, k) = draw_lem rng (y ∷ m) 0 n r (omega arith) in
    (l, ground arith, (λ x. ground (arith, k x), f ∙ ground arith, tt))
random_members-ArePicked rng m n false r d fits =
    let (l, e, (within, distinct, size)) = r.sample-IsSample m n fits in
    (l, e, (λ x. ground (arith, within x), size, distinct d))

-- SRANDMEMBER at a set, of as many members as a vector has room for, does not panic: the reply is
-- members of it, with repetition as many as asked for if the set is not empty, without repetition as
-- many as asked for or all, none of them twice.
pub srandmember_lem :
    (rng : Rng) (k : Str) (count : Option ℕ) (allow_repetition : Bool) (now : ℕ) (s : Store)
    (m : List Str)
    → IsRandom rng
    → peek k now s ≡ some (set m)
    → IsDistinct m
    → unwrap_or count 1 ≤ max_capacity
    → (l : List Str) × (srandmember rng k count allow_repetition now s ≡ some (ok l))
      × ArePicked m (unwrap_or count 1) allow_repetition l
srandmember_lem rng k count allow_repetition now s m r h d fits =
    let (l, e, picked) =
      random_members-ArePicked rng m (unwrap_or count 1) allow_repetition r d fits in
    (l, same l e, picked)
  where
    same :
        (l : List Str)
        → random_members rng m (unwrap_or count 1) allow_repetition ≡ some l
        → srandmember rng k count allow_repetition now s ≡ some (ok l)
    same l e = unfold srandmember in ground arith
