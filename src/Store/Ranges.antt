-- ===== src/Store/Ranges.antt =====
-- The index arithmetic of store/list.rs: LSET and LRANGE against direct descriptions.
use thesaurus.Prelude.{
  Bool-cases, inl, inr, ℕ, zero, suc, ◌-◌, ◌≤◌, ◌<◌, ◌≡◌, refl, ap, sym, ◌∙◌, false, Option, none,
  some, List, [], ◌∷◌, ◌++◌, arith, Str, ltb, leb, ◌==◌, if◌then◌else◌, Result, ok, err, length,
  length-append, get_elem?, take, drop, take_all, drop_all, ℤ, pos, negsuc, ◌+ℤ◌,
}
use thesaurus.Prelude.{set as set_elem}
use thesaurus.Errors.{StoreError, out_of_index}
use thesaurus.Store.Lists.{
  push_back, calculate_index, swap_with, swap_remove_back, lset_at, resolve_start, resolve_stop,
  range_inclusive, clamped_range, elements_between,
}

get_elem?-append_last : (l : List Str) (x : Str) → get_elem? (l ++ x ∷ []) (length l) ≡ some x
get_elem?-append_last [] x = refl
get_elem?-append_last (y ∷ l) x = get_elem?-append_last l x

take-set-append :
    (l : List Str) (x : Str) (i : ℕ)
    → i < length l
    → take (length l) (set_elem (l ++ x ∷ []) i x) ≡ set_elem l i x
take-set-append [] x i h = elim h [ ]
take-set-append (y ∷ l) x zero h = ap (λ r. x ∷ r) (start l)
  where
    start : (r : List Str) → take (length r) (r ++ x ∷ []) ≡ r
    start [] = refl
    start (z ∷ r) = ap (λ t. z ∷ t) (start r)
take-set-append (y ∷ l) x (suc i) h = ap (λ r. y ∷ r) (take-set-append l x i (omega arith))

-- Appending the element and swap-removing the old one is a write at the index.
swap_remove_back-push_back :
    (l : List Str) (x : Str) (i : ℕ)
    → i < length l
    → swap_remove_back (push_back l x) i ≡ set_elem l i x
unfolding swap_remove_back
swap_remove_back-push_back l x i h =
    ap (λ n. swap_with (get_elem? (push_back l x) n) (push_back l x) i n) last_index
    ∙ ap (λ o. swap_with o (push_back l x) i (length l)) (get_elem?-append_last l x)
    ∙ take-set-append l x i h
  where
    last_index : length (l ++ x ∷ []) - 1 ≡ length l
    last_index = omega (arith, length-append l (x ∷ []))

-- The index that a signed one stands for, counted from the end if it is negative; none out of range.
abbrev pub resolved : ℤ → ℕ → Option ℕ
resolved (pos n) len = if ltb n len then some n else none
resolved (negsuc n) len = if leb (suc n) len then some (len - suc n) else none

abbrev pub set_resolved : Option ℕ → List Str → Str → Result StoreError (List Str)
set_resolved none l x = err out_of_index
set_resolved (some i) l x = ok (set_elem l i x)

-- LSET on a list: the element at the index, counted from either end, is replaced and no other
-- moves; an index out of range is an error.
pub lset_at_lem :
    (index : ℤ) (l : List Str) (x : Str)
    → lset_at (calculate_index index (length l)) l x ≡ set_resolved (resolved index (length l)) l x
unfolding calculate_index lset_at
lset_at_lem (pos n) l x = ground (arith, swap_remove_back-push_back l x n)
lset_at_lem (negsuc n) l x = ground (arith, swap_remove_back-push_back l x (length l - suc n))

take-nil : (n : ℕ) → take {A = Str} n [] ≡ []
take-nil zero = refl
take-nil (suc n) = refl

drop-take : (m n : ℕ) (l : List Str) → drop m (take n l) ≡ take (n - m) (drop m l)
drop-take zero n l = ap (λ k. take k l) (omega arith)
drop-take (suc m) zero l = ground arith
drop-take (suc m) (suc n) [] = sym (take-nil _)
drop-take (suc m) (suc n) (x ∷ l) = rw (drop-take m n l) (ap (λ k. take k (drop m l)) (omega arith))

-- the index of the first element of a range, and the number of elements up to its last one
abbrev pub start_index : ℤ → ℕ → ℕ
start_index (pos n) len = n
start_index (negsuc n) len = len - suc n

abbrev pub stop_end : ℤ → ℕ → ℕ
stop_end (pos n) len = suc n
stop_end (negsuc n) len = len - n

range_inclusive_lem :
    (start stop : ℕ) (l : List Str) → range_inclusive start stop l ≡ drop start (take (suc stop) l)
range_inclusive_lem start stop l =
    ap (λ k. take k (drop start l)) (omega arith) ∙ sym (drop-take start (suc stop) l)

clamped_range_lem :
    (start stop : ℕ) (l : List Str)
    → clamped_range start (pos stop) l ≡ drop start (take (suc stop) l)
unfolding clamped_range
clamped_range_lem start stop l = elim (Bool-cases (ltb stop start)) [
  | inl e ↦ rw e (sym (drop-take start (suc stop) l ∙ none_left (ground arith)))
  | inr e ↦ rw e (elim (Bool-cases (leb (length l) start)) [
    | inl f ↦ rw f (
        sym (
          drop-take start (suc stop) l
          ∙ ap (take (suc stop - start)) (drop_all start l (ground arith))
          ∙ take-nil _))
    | inr f ↦ rw f (elim (Bool-cases (ltb (length l - 1) stop)) [
      | inl g ↦ rw g (
          range_inclusive_lem start (length l - 1) l
          ∙ ap (drop start) (
              take_all (suc (length l - 1)) l (ground arith)
              ∙ sym (take_all (suc stop) l (ground arith))))
      | inr g ↦ rw g (range_inclusive_lem start stop l)
    ])
  ])
]
  where
    none_left : suc stop ≤ start → take (suc stop - start) (drop start l) ≡ []
    none_left h = let e : suc stop - start ≡ 0 = omega arith in ap (λ k. take k (drop start l)) e

resolve_start_lem : (start : ℤ) (len : ℕ) → resolve_start start len ≡ start_index start len
unfolding resolve_start ◌+ℤ◌
resolve_start_lem (pos n) len = refl
resolve_start_lem (negsuc n) len = ground arith

resolve_stop_in : (n len : ℕ) → n < len → resolve_stop (negsuc n) len ≡ pos (len - suc n)
unfolding resolve_stop ◌+ℤ◌
resolve_stop_in n len h = ground arith

resolve_stop_out : (n len : ℕ) → len ≤ n → resolve_stop (negsuc n) len ≡ negsuc (n - len)
unfolding resolve_stop ◌+ℤ◌
resolve_stop_out n len h = ground arith

clamped_range_between :
    (start stop : ℤ) (l : List Str)
    → clamped_range (resolve_start start (length l)) (resolve_stop stop (length l)) l
      ≡ drop (start_index start (length l)) (take (stop_end stop (length l)) l)
clamped_range_between start (pos n) l =
    rw (resolve_start_lem start (length l))
      (unfold resolve_stop in clamped_range_lem (start_index start (length l)) n l)
clamped_range_between start (negsuc n) l = elim (Bool-cases (ltb n (length l))) [
  | inl e ↦
      rw (resolve_start_lem start (length l), resolve_stop_in n (length l) (ground arith))
        (clamped_range_lem (start_index start (length l)) (length l - suc n) l
          ∙ same_end (ground arith))
  | inr e ↦
      rw (resolve_start_lem start (length l), resolve_stop_out n (length l) (ground arith))
        (unfold clamped_range in sym (nothing (ground arith)))
]
  where
    same_end :
        n < length l
        → drop (start_index start (length l)) (take (suc (length l - suc n)) l)
          ≡ drop (start_index start (length l)) (take (length l - n) l)
    same_end h =
        let e : suc (length l - suc n) ≡ length l - n = omega arith in
        ap (λ k. drop (start_index start (length l)) (take k l)) e

    nothing : length l ≤ n → drop (start_index start (length l)) (take (length l - n) l) ≡ []
    nothing h =
        let e : length l - n ≡ 0 = omega arith in
        ap (λ k. drop (start_index start (length l)) (take k l)) e ∙ drop_all _ [] (omega arith)

-- LRANGE on a list is the part of it from the first index to the last one, each counted from the
-- end if it is negative, and clamped to the list.
pub elements_between_lem :
    (start stop : ℤ) (l : List Str)
    → elements_between l start stop
      ≡ drop (start_index start (length l)) (take (stop_end stop (length l)) l)
elements_between_lem start stop [] =
    unfold elements_between in sym (ap (drop _) (take-nil _) ∙ drop_all _ [] (omega arith))
elements_between_lem start stop (x ∷ l) =
    let e : (length (x ∷ l) == 0) ≡ false = ground arith in
    let r = clamped_range_between start stop (x ∷ l) in unfold elements_between in rw e r
