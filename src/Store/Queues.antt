-- ===== src/Store/Queues.antt =====
-- The lists of store/list.rs as queues: what the pushes add and the pops take, and where.
use mathlib.Core.List.{reverse-append, reverse-reverse}
use thesaurus.Prelude.{
  ℕ, zero, suc, ◌≤◌, ◌≡◌, refl, sym, ap, ◌∙◌, Bool, true, false, Option, none, some, List, [], ◌∷◌,
  ◌++◌, reverse, arith, Str, str_eq, str_eq_iff, if◌then◌else◌, Result, ok, err, Outcome, done,
  length, take, drop, ltb,
}
use thesaurus.Map
use thesaurus.Errors.{StoreError, wrong_type}
use thesaurus.Store.{Store, StoreValue, str, list, set, peek}
use thesaurus.Store.Visible.{peek-put}
use thesaurus.Store.Lists.{
  push_inner, push_onto, lpop, rpop, pop_front, pop_back, pop_loop, pop_inner, leave_rest,
  max_capacity, write_back,
}

pub pop_loop-pop_front : (n : ℕ) (l : List Str) → pop_loop pop_front n l ≡ (take n l, drop n l)
unfolding pop_loop pop_front
pop_loop-pop_front zero l = refl
pop_loop-pop_front (suc n) [] = refl
pop_loop-pop_front (suc n) (x ∷ l) = ground (arith, pop_loop-pop_front n l)

pop_back-append : (l : List Str) (x : Str) → pop_back (l ++ x ∷ []) ≡ some (x, l)
unfolding pop_back
pop_back-append [] x = refl
pop_back-append (y ∷ l) x = rw (pop_back-append l x)

pop_loop_step :
    (pop_fn : List Str → Option (Str × List Str)) (n : ℕ) (l r : List Str) (x : Str)
    → pop_fn l ≡ some (x, r)
    → pop_loop pop_fn (suc n) l ≡ (x ∷ (pop_loop pop_fn n r).0, (pop_loop pop_fn n r).1)
unfolding pop_loop
pop_loop_step pop_fn n l r x h = rw (h, pop_loop)

-- Popping from the back is popping the reversed list from its front.
pop_loop-pop_back-reverse :
    (n : ℕ) (l : List Str) → pop_loop pop_back n (reverse l) ≡ (take n l, reverse (drop n l))
pop_loop-pop_back-reverse zero l = unfold pop_loop in refl
pop_loop-pop_back-reverse (suc n) [] = unfold pop_loop pop_back in refl
pop_loop-pop_back-reverse (suc n) (x ∷ l) =
    pop_loop_step pop_back n (reverse (x ∷ l)) (reverse l) x
      (ap pop_back (reverse-append (x ∷ []) l) ∙ pop_back-append (reverse l) x)
    ∙ rw (pop_loop-pop_back-reverse n l)

pop_loop-pop_back :
    (n : ℕ) (l : List Str)
    → pop_loop pop_back n l ≡ (take n (reverse l), reverse (drop n (reverse l)))
pop_loop-pop_back n l =
    ap (pop_loop pop_back n) (sym (reverse-reverse l)) ∙ pop_loop-pop_back-reverse n (reverse l)

-- the list that a reader finds; none is left once it is empty
abbrev pub list_or_none : List Str → Option StoreValue
list_or_none [] = none
list_or_none (x ∷ l) = some (list (x ∷ l))

pub peek-write_back :
    (k j : Str) (v w : StoreValue) (now : ℕ) (s : Store)
    → peek k now s ≡ some w
    → peek j now (write_back k v s) ≡ (if str_eq k j then some v else peek j now s)
unfolding peek write_back
peek-write_back k j v w now s h = ground (arith, Map.get-insert k j v s.values, str_eq_iff k j)

peek-leave_rest :
    (k j : Str) (r : List Str) (w : StoreValue) (now : ℕ) (s : Store)
    → peek k now s ≡ some w
    → peek j now (leave_rest k r s) ≡ (if str_eq k j then list_or_none r else peek j now s)
unfolding peek leave_rest
peek-leave_rest k j [] w now s h = ground (arith, Map.get-remove k j s.values, str_eq_iff k j)
peek-leave_rest k j (x ∷ r) w now s h =
    ground (arith, Map.get-insert k j (list (x ∷ r)) s.values, str_eq_iff k j)

-- The whole effect of a pop at a list: the reply, and what a reader finds at each key.
abbrev pub Pops :
    Str
    → ℕ
    → Store
    → List Str
    → List Str
    → Outcome (Result StoreError (Option (List Str)) × Store)
    → Type 0
Pops k now s taken left r =
    (s' : Store) × (r ≡ done (ok (some taken), s'))
    × ((j : Str) → peek j now s' ≡ (if str_eq k j then list_or_none left else peek j now s))

module _ (k : Str) (count now : ℕ) (s : Store) (l : List Str) where
  pop_inner_lem :
      (pop_fn : List Str → Option (Str × List Str)) (taken left : List Str)
      → pop_loop pop_fn count l ≡ (taken, left)
      → peek k now s ≡ some (list l)
      → count ≤ max_capacity
      → Pops k now s taken left (pop_inner k count pop_fn now s)
  pop_inner_lem pop_fn taken left e h c = (
    leave_rest k left s,
    unfold pop_inner in rw (fits, h, e),
    λ j. peek-leave_rest k j left (list l) now s h,
  )
    where
      fits : ltb max_capacity count ≡ false
      fits = ground arith

  -- LPOP of up to `count` elements, where a list is found and the buffer for `count` texts can be
  -- allocated: the reply is the first `count` elements in order, the key keeps the others, and is
  -- gone if there are none; every other key is as before.
  pub lpop_lem :
      peek k now s ≡ some (list l)
      → count ≤ max_capacity
      → Pops k now s (take count l) (drop count l) (lpop k count now s)
  unfolding lpop
  lpop_lem = pop_inner_lem pop_front _ _ (pop_loop-pop_front count l)

  -- RPOP of up to `count` elements, where a list is found and the buffer for `count` texts can be
  -- allocated: the reply is the last `count` elements, the last one first, the key keeps the others in
  -- their order, and is gone if there are none; every other key is as before.
  pub rpop_lem :
      peek k now s ≡ some (list l)
      → count ≤ max_capacity
      → Pops k now s
          (take count (reverse l))
          (reverse (drop count (reverse l)))
          (rpop k count now s)
  unfolding rpop
  rpop_lem = pop_inner_lem pop_back _ _ (pop_loop-pop_back count l)

-- the list after a push, as a reader finds it
abbrev pub pushed : (List Str → Str → List Str) → Str → Bool → Option StoreValue → Option StoreValue
pushed push_fn x create (some (list l)) = some (list (push_fn l x))
pushed push_fn x true none = some (list (x ∷ []))
pushed push_fn x false none = none
pushed push_fn x create (some (str t)) = some (str t)
pushed push_fn x create (some (set m)) = some (set m)

abbrev pub push_result :
    (List Str → Str → List Str) → Str → Bool → Option StoreValue → Result StoreError ℕ
push_result push_fn x create (some (list l)) = ok (length (push_fn l x))
push_result push_fn x true none = ok 1
push_result push_fn x false none = ok 0
push_result push_fn x create (some (str t)) = err wrong_type
push_result push_fn x create (some (set m)) = err wrong_type

push_onto_lem :
    (push_fn : List Str → Str → List Str) (k x : Str) (create : Bool) (now : ℕ) (s : Store)
    (j : Str) (o : Option StoreValue)
    → peek k now s ≡ o
    → ((push_onto o k x create push_fn s).0 ≡ push_result push_fn x create o)
      × (peek j now (push_onto o k x create push_fn s).1
          ≡ (if str_eq k j then pushed push_fn x create o else peek j now s))
unfolding push_onto
push_onto_lem push_fn k x true now s j none h = (refl, peek-put k j (list (x ∷ [])) now s)
push_onto_lem push_fn k x false now s j none h = (refl, ground (arith, str_eq_iff k j))
push_onto_lem push_fn k x create now s j (some (list l)) h =
    (refl, peek-write_back k j (list (push_fn l x)) (list l) now s h)
push_onto_lem push_fn k x create now s j (some (str t)) h = (refl, ground (arith, str_eq_iff k j))
push_onto_lem push_fn k x create now s j (some (set m)) h = (refl, ground (arith, str_eq_iff k j))

-- The four pushes, on every branch: the reply is the new length, 0 for a missing key that is not to
-- be created, or a type error; a reader finds the longer list, or a new list of one element, and
-- every other key as before.
pub push_inner_lem :
    (push_fn : List Str → Str → List Str) (k x : Str) (create : Bool) (now : ℕ) (s : Store)
    (j : Str)
    → ((push_inner k x create push_fn now s).0 ≡ push_result push_fn x create (peek k now s))
      × (peek j now (push_inner k x create push_fn now s).1
          ≡ (if str_eq k j then pushed push_fn x create (peek k now s) else peek j now s))
push_inner_lem push_fn k x create now s j =
    unfold push_inner in push_onto_lem push_fn k x create now s j (peek k now s) refl
