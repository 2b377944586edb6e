-- ===== src/Store/Lists.antt =====
-- crates/thesaurus/src/store/list.rs. A `VecDeque<String>` is a list, its front first.
use thesaurus.Prelude.{
  ℕ, zero, suc, ◌+◌, ◌-◌, ◌^◌, ◌/◌, Bool, true, false, Option, none, some, List, [], ◌∷◌, ◌++◌, Str,
  Result, ok, err, Outcome, done, panicked, ltb, leb, if◌then◌else◌, length, get_elem?, take, drop,
  ℤ, pos, negsuc, ◌+ℤ◌, pos_part, ◌==◌,
}
use thesaurus.Prelude.{set as set_elem}
use thesaurus.Map
use thesaurus.Errors.{StoreError, wrong_type, out_of_index, no_such_key}
use thesaurus.Store.{Store, StoreValue, str, list, set, peek, put}

-- A write through the reference that `get_mut` returned.
unfoldable pub write_back : Str → StoreValue → Store → Store
write_back key value s = record s { values = Map.insert key value s.values }

-- `VecDeque::push_front`, `VecDeque::push_back`
abbrev pub push_front : List Str → Str → List Str
push_front l x = x ∷ l

abbrev pub push_back : List Str → Str → List Str
push_back l x = l ++ x ∷ []

-- the match of `push_inner` on `guard.get_mut(key)`
unfoldable pub push_onto :
    Option StoreValue
    → Str
    → Str
    → Bool
    → (List Str → Str → List Str)
    → Store
    → Result StoreError ℕ × Store
unfolding put write_back
push_onto none key element create_if_missing push_fn s =
    if create_if_missing then (ok 1, put key (list (element ∷ [])) s) else (ok 0, s)
push_onto (some (list l)) key element create_if_missing push_fn s =
    (ok (length (push_fn l element)), write_back key (list (push_fn l element)) s)
push_onto (some (str _)) key element create_if_missing push_fn s = (err wrong_type, s)
push_onto (some (set _)) key element create_if_missing push_fn s = (err wrong_type, s)

unfoldable pub push_inner :
    Str → Str → Bool → (List Str → Str → List Str) → ℕ → Store → Result StoreError ℕ × Store
unfolding push_onto peek
push_inner key element create_if_missing push_fn now s =
    push_onto (peek key now s) key element create_if_missing push_fn s

unfoldable pub lpush : Str → Str → ℕ → Store → Result StoreError ℕ × Store
unfolding push_inner
lpush key element = push_inner key element true push_front

unfoldable pub rpush : Str → Str → ℕ → Store → Result StoreError ℕ × Store
unfolding push_inner
rpush key element = push_inner key element true push_back

unfoldable pub lpushx : Str → Str → ℕ → Store → Result StoreError ℕ × Store
unfolding push_inner
lpushx key element = push_inner key element false push_front

unfoldable pub rpushx : Str → Str → ℕ → Store → Result StoreError ℕ × Store
unfolding push_inner
rpushx key element = push_inner key element false push_back

-- `VecDeque::pop_front`, `VecDeque::pop_back`: the element with the list that is left
unfoldable pub pop_front : List Str → Option (Str × List Str)
pop_front [] = none
pop_front (x ∷ l) = some (x, l)

unfoldable pub pop_back : List Str → Option (Str × List Str)
pop_back [] = none
pop_back (x ∷ l) = elim (pop_back l) [ none ↦ some (x, []) | some (y, r) ↦ some (y, x ∷ r) ]

-- the loop of `pop_inner`: the elements popped with the list that is left
unfoldable pub pop_loop : (List Str → Option (Str × List Str)) → ℕ → List Str → List Str × List Str
pop_loop pop_fn zero l = ([], l)
pop_loop pop_fn (suc count) l = elim (pop_fn l) [
  | none ↦ ([], l)
  | some (x, r) ↦ (let (xs, r') = pop_loop pop_fn count r in (x ∷ xs, r'))
]

-- `Vec::with_capacity(n)` of `String`s, 24 bytes each, panics above `isize::MAX` bytes.
abbrev pub max_capacity : ℕ
max_capacity = (2 ^ 63 - 1) / 24

-- The key is removed from `data` alone when its list has become empty.
unfoldable pub leave_rest : Str → List Str → Store → Store
unfolding write_back
leave_rest key [] s = record s { values = Map.remove key s.values }
leave_rest key (x ∷ l) s = write_back key (list (x ∷ l)) s

unfoldable pub pop_from :
    Option StoreValue
    → Str
    → ℕ
    → (List Str → Option (Str × List Str))
    → Store
    → Result StoreError (Option (List Str)) × Store
unfolding pop_loop leave_rest
pop_from (some (list l)) key count pop_fn s =
    let (elements, rest) = pop_loop pop_fn count l in (ok (some elements), leave_rest key rest s)
pop_from (some (str _)) key count pop_fn s = (err wrong_type, s)
pop_from (some (set _)) key count pop_fn s = (err wrong_type, s)
pop_from none key count pop_fn s = (ok none, s)

unfoldable pub pop_inner :
    Str
    → ℕ
    → (List Str → Option (Str × List Str))
    → ℕ
    → Store
    → Outcome (Result StoreError (Option (List Str)) × Store)
unfolding pop_from peek
pop_inner key count pop_fn now s =
    if ltb max_capacity count then panicked else done (pop_from (peek key now s) key count pop_fn s)

unfoldable pub lpop : Str → ℕ → ℕ → Store → Outcome (Result StoreError (Option (List Str)) × Store)
unfolding pop_inner pop_front
lpop key count = pop_inner key count pop_front

unfoldable pub rpop : Str → ℕ → ℕ → Store → Outcome (Result StoreError (Option (List Str)) × Store)
unfolding pop_inner pop_back
rpop key count = pop_inner key count pop_back

unfoldable pub calculate_index : ℤ → ℕ → Result StoreError ℕ
calculate_index (negsuc n) list_len =
    if ltb list_len (suc n) then err out_of_index else ok (list_len - suc n)
calculate_index (pos n) list_len = ok n

-- `VecDeque::swap_remove_back`, for an index in range: the last element takes the place of the one
-- that is removed.
abbrev pub swap_with : Option Str → List Str → ℕ → ℕ → List Str
swap_with none l i last = l
swap_with (some back) l i last = take last (set_elem l i back)

unfoldable pub swap_remove_back : List Str → ℕ → List Str
swap_remove_back l i = swap_with (get_elem? l (length l - 1)) l i (length l - 1)

unfoldable pub lset_at : Result StoreError ℕ → List Str → Str → Result StoreError (List Str)
unfolding swap_remove_back
lset_at (err e) l element = err e
lset_at (ok i) l element =
    if leb (length l) i then err out_of_index else ok (swap_remove_back (push_back l element) i)

-- the write of `lset`, once the index is resolved
abbrev pub lset_to :
    Result StoreError (List Str) → Str → Store → Result StoreError (Unit {0}) × Store
lset_to (err e) key s = (err e, s)
lset_to (ok l) key s = (ok tt, write_back key (list l) s)

-- the match of `lset` on `guard.get_mut(key)`
unfoldable pub lset_in :
    Option StoreValue → Str → ℤ → Str → Store → Result StoreError (Unit {0}) × Store
unfolding calculate_index lset_at write_back
lset_in none key index element s = (err no_such_key, s)
lset_in (some (list l)) key index element s =
    lset_to (lset_at (calculate_index index (length l)) l element) key s
lset_in (some (str _)) key index element s = (err wrong_type, s)
lset_in (some (set _)) key index element s = (err wrong_type, s)

unfoldable pub lset : Str → ℤ → Str → ℕ → Store → Result StoreError (Unit {0}) × Store
unfolding peek lset_in
lset key index element now s = lset_in (peek key now s) key index element s

unfoldable pub llen : Str → ℕ → Store → Result StoreError ℕ
unfolding peek
llen key now s = elim (peek key now s) [
  | none ↦ ok 0
  | some (list l) ↦ ok (length l)
  | some (str _) ↦ err wrong_type
  | some (set _) ↦ err wrong_type
]

-- the branch of `lindex` at a list
unfoldable pub element_at : List Str → ℤ → Option Str
unfolding calculate_index
element_at l index = elim (calculate_index index (length l)) [ ok i ↦ get_elem? l i | err _ ↦ none ]

unfoldable pub lindex : Str → ℤ → ℕ → Store → Result StoreError (Option Str)
unfolding peek element_at
lindex key index now s = elim (peek key now s) [
  | none ↦ ok none
  | some (list l) ↦ ok (element_at l index)
  | some (str _) ↦ err wrong_type
  | some (set _) ↦ err wrong_type
]

-- `if start < 0 { (start + len).max(0) } else { start }`, which is never negative
unfoldable pub resolve_start : ℤ → ℕ → ℕ
resolve_start (pos n) len = n
resolve_start (negsuc n) len = pos_part (negsuc n +ℤ pos len)

-- `if stop < 0 { stop + len } else { stop }`
unfoldable pub resolve_stop : ℤ → ℕ → ℤ
resolve_stop (pos n) len = pos n
resolve_stop (negsuc n) len = negsuc n +ℤ pos len

-- The list from `start` up to `stop`, both included: `l.range(start..=stop)`.
abbrev pub range_inclusive : ℕ → ℕ → List Str → List Str
range_inclusive start stop l = take (stop + 1 - start) (drop start l)

-- The last steps of the branch, for a list with `len` elements: `start > stop` or `start >= len`
-- gives nothing, and `stop` is clamped to `len - 1`.
unfoldable pub clamped_range : ℕ → ℤ → List Str → List Str
clamped_range start (negsuc n) l = []
clamped_range start (pos stop) l =
    if ltb stop start
    then []
    else if leb (length l) start
    then []
    else range_inclusive start (if ltb (length l - 1) stop then length l - 1 else stop) l

-- the branch of `lrange` at a list
unfoldable pub elements_between : List Str → ℤ → ℤ → List Str
unfolding resolve_start resolve_stop clamped_range ◌+ℤ◌
elements_between l start stop =
    if length l == 0
    then []
    else clamped_range (resolve_start start (length l)) (resolve_stop stop (length l)) l

unfoldable pub lrange : Str → ℤ → ℤ → ℕ → Store → Result StoreError (List Str)
unfolding peek elements_between
lrange key start stop now s = elim (peek key now s) [
  | none ↦ ok []
  | some (list l) ↦ ok (elements_between l start stop)
  | some (str _) ↦ err wrong_type
  | some (set _) ↦ err wrong_type
]
