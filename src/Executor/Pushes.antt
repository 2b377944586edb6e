-- ===== src/Executor/Pushes.antt =====
-- The loop of `push_inner` in executor/list.rs: the pushes of several elements.
use mathlib.Core.List.{append_assoc, append-nil, reverse-append}
use thesaurus.Prelude.{
  ℕ, suc, ◌≡◌, refl, sym, ap, ◌∙◌, Bool, true, Option, none, some, List, [], ◌∷◌, ◌++◌, reverse,
  arith, Str, str_eq, str_eq_refl, str_eq_iff, if◌then◌else◌, ok, length,
}
use thesaurus.Resp2.{RespValue, integer}
use thesaurus.Store.{Store, StoreValue, list, peek, put}
use thesaurus.Store.Visible.{peek-put}
use thesaurus.Store.Lists as StoreLists
use thesaurus.Store.Lists.{push_inner, push_onto, push_front, push_back, write_back}
use thesaurus.Store.Queues.{peek-write_back}
use thesaurus.Executor.{Env, as_i64}
use thesaurus.Executor.Lists.{push_all, lpush, rpush}

abbrev push_each : (List Str → Str → List Str) → List Str → List Str → List Str
push_each push_fn l [] = l
push_each push_fn l (x ∷ elements) = push_each push_fn (push_fn l x) elements

push_each-front : (l elements : List Str) → push_each push_front l elements ≡ reverse elements ++ l
push_each-front l [] = refl
push_each-front l (x ∷ elements) =
    push_each-front (x ∷ l) elements
    ∙ sym (
        ap (λ r. r ++ l) (reverse-append (x ∷ []) elements)
        ∙ append_assoc (reverse elements) (x ∷ []) l)

push_each-back : (l elements : List Str) → push_each push_back l elements ≡ l ++ elements
push_each-back l [] = sym (append-nil l)
push_each-back l (x ∷ elements) =
    push_each-back (l ++ x ∷ []) elements ∙ append_assoc l (x ∷ []) elements

-- The list is left at the key, for a reader at `t`, and every other key as it was.
abbrev pub LeavesList : Str → ℕ → Store → List Str → RespValue × Store → Type 0
LeavesList k t s l r =
    (r.0 ≡ integer (as_i64 (length l)))
    × ((j : Str) → peek j t r.1 ≡ (if str_eq k j then some (list l) else peek j t s))

push_found :
    (push_fn : List Str → Str → List Str) (k x : Str) (create : Bool) (now : ℕ) (s : Store)
    (l : List Str)
    → peek k now s ≡ some (list l)
    → push_inner k x create push_fn now s
      ≡ (ok (length (push_fn l x)), write_back k (list (push_fn l x)) s)
push_found push_fn k x create now s l h = unfold push_inner in rw h (unfold push_onto in refl)

push_new :
    (push_fn : List Str → Str → List Str) (k x : Str) (now : ℕ) (s : Store)
    → peek k now s ≡ none
    → push_inner k x true push_fn now s ≡ (ok 1, put k (list (x ∷ [])) s)
push_new push_fn k x now s h = unfold push_inner in rw h (unfold push_onto in refl)

peek-pushed :
    (k : Str) (now : ℕ) (l m : List Str) (s : Store)
    → peek k now s ≡ some (list l)
    → peek k now (write_back k (list m) s) ≡ some (list m)
peek-pushed k now l m s h =
    ground (arith, peek-write_back k k (list m) (list l) now s h, str_eq_refl k)

-- The rest of the loop, where the list is found at every reading of the clock.
push_all-found :
    (push_fn : List Str → Str → List Str) (k : Str) (create : Bool) (elements : List Str)
    (now : ℕ → ℕ) (t : ℕ) (l : List Str) (s : Store)
    → ((i : ℕ) → peek k (now i) s ≡ some (list l))
    → peek k t s ≡ some (list l)
    → LeavesList k t s
        (push_each push_fn l elements)
        (push_all (λ k x. push_inner k x create push_fn) k elements now (length l) s)
unfolding push_all
push_all-found push_fn k create [] now t l s h f = (refl, λ j. ground (arith, str_eq_iff k j))
push_all-found push_fn k create (x ∷ elements) now t l s h f =
    let s' = write_back k (list (push_fn l x)) s in
    let (e, p) =
      push_all-found push_fn k create elements (λ i. now (suc i)) t (push_fn l x) s'
        (λ i. peek-pushed k (now (suc i)) l (push_fn l x) s (h (suc i)))
        (peek-pushed k t l (push_fn l x) s f) in
    rw (push_found push_fn k x create (now 0) s l (h 0))
      (e, λ j. ground (arith, p j, peek-write_back k j (list (push_fn l x)) (list l) t s f))

abbrev pub found_list : Option (List Str) → Option StoreValue
found_list none = none
found_list (some l) = some (list l)

abbrev pub items_of : Option (List Str) → List Str
items_of none = []
items_of (some l) = l

-- The loop from its first push, which makes the list if nothing is found.
first-found :
    (push_fn : List Str → Str → List Str) (k x : Str) (elements : List Str) (now : ℕ → ℕ) (t : ℕ)
    (o : Option (List Str)) (s : Store)
    → push_fn [] x ≡ x ∷ []
    → ((i : ℕ) → peek k (now i) s ≡ found_list o)
    → peek k t s ≡ found_list o
    → LeavesList k t s
        (push_each push_fn (items_of o) (x ∷ elements))
        (push_all (λ k x. push_inner k x true push_fn) k (x ∷ elements) now 0 s)
unfolding push_all
first-found push_fn k x elements now t (some l) s one h f =
    let s' = write_back k (list (push_fn l x)) s in
    let (e, p) =
      push_all-found push_fn k true elements (λ i. now (suc i)) t (push_fn l x) s'
        (λ i. peek-pushed k (now (suc i)) l (push_fn l x) s (h (suc i)))
        (peek-pushed k t l (push_fn l x) s f) in
    rw (push_found push_fn k x true (now 0) s l (h 0))
      (e, λ j. ground (arith, p j, peek-write_back k j (list (push_fn l x)) (list l) t s f))
first-found push_fn k x elements now t none s one h f =
    let s' = put k (list (x ∷ [])) s in
    let (e, p) =
      push_all-found push_fn k true elements (λ i. now (suc i)) t (x ∷ []) s'
        (λ i. ground (arith, peek-put k k (list (x ∷ [])) (now (suc i)) s, str_eq_refl k))
        (ground (arith, peek-put k k (list (x ∷ [])) t s, str_eq_refl k)) in
    rw (push_new push_fn k x (now 0) s (h 0), one)
      (e, λ j. ground (arith, p j, peek-put k j (list (x ∷ [])) t s))

-- LPUSH and RPUSH of one element or more, where the same list, or nothing, is found at each reading of
-- the clock and at the time of a reader: LPUSH leaves the elements, the last one first, in front of
-- the list, RPUSH leaves them in order behind it, as the reader finds it, the reply is the length as
-- an `i64`, and every other key is as it was.
pub push_lem :
    (env : Env) (k x : Str) (elements : List Str) (t : ℕ) (o : Option (List Str)) (s : Store)
    → ((i : ℕ) → peek k (env.instant i) s ≡ found_list o)
    → peek k t s ≡ found_list o
    → LeavesList k t s (reverse (x ∷ elements) ++ items_of o) (lpush env k (x ∷ elements) s)
      × LeavesList k t s (items_of o ++ x ∷ elements) (rpush env k (x ∷ elements) s)
push_lem env k x elements t o s h f = (
  unfold lpush StoreLists.lpush in
      rw (sym (push_each-front (items_of o) (x ∷ elements)))
        (first-found push_front k x elements env.instant t o s refl h f),
  unfold rpush StoreLists.rpush in
      rw (sym (push_each-back (items_of o) (x ∷ elements)))
        (first-found push_back k x elements env.instant t o s refl h f),
)
