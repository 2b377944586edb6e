-- ===== src/Store/SetChanges.antt =====
-- The operations of store/set.rs, and LSET, are sequences of edits on a store that is well formed.
use thesaurus.Prelude.{
  ℕ, zero, suc, ◌≤◌, ◌≡◌, refl, Bool, true, false, Option, none, some, List, [], ◌∷◌, arith, Str,
  length, if◌then◌else◌, Result, Outcome, done, panicked, poisoned, ℤ,
}
use thesaurus.Prelude.{set as set_elem}
use thesaurus.Map
use thesaurus.HashSet
use thesaurus.HashSet.{collect_lem, insert-IsDistinct, remove-IsDistinct, contains}
use thesaurus.Errors.{StoreError}
use thesaurus.Store.{Store, StoreValue, str, list, set, peek}
use thesaurus.Store.Lists.{write_back, lset_in, lset_to}
use thesaurus.Store.Sets.{
  add_to, insert_all, remove_from, remove_counting, take_popped, pop_members, remove_all,
  leave_members, smove, move_from, move_out, move_in, Readings, Rng, unwrap_or, is_set_or_missing,
}
use thesaurus.Store.Ranges.{lset_at_lem, set_resolved, resolved}
use thesaurus.Store.Members.{insert_all_lem, remove_counting_lem, remove_all_lem}
use thesaurus.Store.Edits.{
  value-IsProper, puts, drops, overwrites, Edits, here, one, Edits-trans, Edits-IsWellFormed,
  IsWellFormed,
}
use thesaurus.Store.Changes.{peek-get}

length-set : (l : List Str) (i : ℕ) (x : Str) → length (set_elem l i x) ≡ length l
length-set [] i x = refl
length-set (y ∷ l) zero x = refl
length-set (y ∷ l) (suc i) x = omega (arith, length-set l i x)

lset_to-Edits :
    {leaky : Bool} (i : Option ℕ) (k x : Str) (l : List Str) (s : Store)
    → Map.get k s.values ≡ some (list l)
    → 1 ≤ length l
    → Edits leaky s (lset_to (set_resolved i l x) k s).1
unfolding write_back
lset_to-Edits none k x l s h p = here
lset_to-Edits (some i) k x l s h p =
    one (overwrites k (list (set_elem l i x)) (list l) h (omega (arith, length-set l i x)))

pub lset_in-Edits :
    {leaky : Bool} (o : Option StoreValue) (k : Str) (index : ℤ) (x : Str) (now : ℕ) (s : Store)
    → IsWellFormed s
    → peek k now s ≡ o
    → Edits leaky s (lset_in o k index x s).1
unfolding lset_in
lset_in-Edits none k index x now s w h = here
lset_in-Edits (some (list l)) k index x now s w h = rw (lset_at_lem index l x) (
    lset_to-Edits (resolved index (length l)) k x l s (peek-get k now s (list l) h)
      (value-IsProper k (list l) s w (peek-get k now s (list l) h)))
lset_in-Edits (some (str t)) k index x now s w h = here
lset_in-Edits (some (set m)) k index x now s w h = here

-- a set that is found has no member twice
found-IsDistinct :
    (k : Str) (now : ℕ) (s : Store) (m : List Str)
    → IsWellFormed s
    → peek k now s ≡ some (set m)
    → HashSet.IsDistinct m
found-IsDistinct k now s m w h = value-IsProper k (set m) s w (peek-get k now s (set m) h)

pub add_to-Edits :
    {leaky : Bool} (o : Option StoreValue) (k : Str) (members : List Str) (now : ℕ) (s : Store)
    → IsWellFormed s
    → peek k now s ≡ o
    → Edits leaky s (add_to o k members s).1
unfolding add_to
add_to-Edits none k members now s w h =
    one (puts k (set (HashSet.collect [] members)) (collect_lem members [] [] tt).0)
add_to-Edits (some (set m)) k members now s w h = one (
    overwrites k (set (insert_all members m).1) (set m) (peek-get k now s (set m) h)
      (insert_all_lem members m [] (found-IsDistinct k now s m w h)).1)
add_to-Edits (some (str t)) k members now s w h = here
add_to-Edits (some (list l)) k members now s w h = here

pub remove_from-Edits :
    {leaky : Bool} (o : Option StoreValue) (k : Str) (members : List Str) (now : ℕ) (s : Store)
    → IsWellFormed s
    → peek k now s ≡ o
    → Edits leaky s (remove_from o k members s).1
unfolding remove_from
remove_from-Edits none k members now s w h = here
remove_from-Edits (some (set m)) k members now s w h = one (
    overwrites k (set (remove_counting members m).1) (set m) (peek-get k now s (set m) h)
      (remove_counting_lem members m [] (found-IsDistinct k now s m w h)).1)
remove_from-Edits (some (str t)) k members now s w h = here
remove_from-Edits (some (list l)) k members now s w h = here

leave_members-Edits :
    {leaky : Bool} (k : Str) (m : List Str) (v : StoreValue) (s : Store)
    → Map.get k s.values ≡ some v
    → HashSet.IsDistinct m
    → Edits leaky s (leave_members k m s)
unfolding leave_members
leave_members-Edits k [] v s h d = one (drops k)
leave_members-Edits k (x ∷ m) v s h d = one (overwrites k (set (x ∷ m)) v h d)

-- the store that SPOP or SMOVE leaves; what it is after a poisoning nobody reads
abbrev pub left_by : {A : Type 0} → Outcome (A × Store) → Store → Store
left_by (done (r, s')) s = s'
left_by panicked s = s
left_by poisoned s = s

take_popped-Edits :
    {leaky : Bool} (o : Option (List Str)) (k : Str) (m : List Str) (now : ℕ) (s : Store)
    → IsWellFormed s
    → peek k now s ≡ some (set m)
    → Edits leaky s (left_by (take_popped o k m s) s)
unfolding take_popped
take_popped-Edits none k m now s w h = here
take_popped-Edits (some popped) k m now s w h =
    leave_members-Edits k (remove_all popped m) (set m) s (peek-get k now s (set m) h)
      (remove_all_lem popped m [] (found-IsDistinct k now s m w h)).0

pub pop_members-Edits :
    {leaky : Bool} (rng : Rng) (o : Option StoreValue) (k : Str) (count : Option ℕ) (now : ℕ)
    (s : Store)
    → IsWellFormed s
    → peek k now s ≡ o
    → Edits leaky s (left_by (pop_members rng o k count s) s)
unfolding pop_members
pop_members-Edits rng none k count now s w h = here
pop_members-Edits rng (some (set m)) k count now s w h =
    take_popped-Edits (rng.sample m (unwrap_or count 1)) k m now s w h
pop_members-Edits rng (some (str t)) k count now s w h = here
pop_members-Edits rng (some (list l)) k count now s w h = here

move_in-Edits :
    {leaky : Bool} (o : Option StoreValue) (k member : Str) (now : ℕ) (s t : Store)
    → Edits leaky s t
    → IsWellFormed t
    → peek k now t ≡ o
    → Edits leaky s (left_by (move_in o k member t) s)
unfolding move_in
move_in-Edits none k member now s t p w h =
    Edits-trans p (one (puts k (set (member ∷ [])) (unfold contains in (refl, tt))))
move_in-Edits (some (set m)) k member now s t p w h = Edits-trans p (
    one (
      overwrites k (set (HashSet.insert member m)) (set m) (peek-get k now t (set m) h)
        (insert-IsDistinct member m (found-IsDistinct k now t m w h))))
move_in-Edits (some (str x)) k member now s t p w h = here
move_in-Edits (some (list l)) k member now s t p w h = here

move_out-Edits :
    {leaky : Bool} (o : Option StoreValue) (source destination member : Str) (now at : ℕ)
    (s : Store)
    → IsWellFormed s
    → peek source now s ≡ o
    → Edits leaky s (left_by (move_out o source destination member at s) s)
unfolding move_out
move_out-Edits {leaky} (some (set m)) source destination member now at s w h =
    move_in-Edits _ destination member at s left removed (Edits-IsWellFormed removed w) refl
  where
    left : Store
    left = leave_members source (HashSet.remove member m) s

    removed : Edits leaky s left
    removed =
        leave_members-Edits source (HashSet.remove member m) (set m) s
          (peek-get source now s (set m) h)
          (remove-IsDistinct member m (found-IsDistinct source now s m w h))
move_out-Edits none source destination member now at s w h = here
move_out-Edits (some (str t)) source destination member now at s w h = here
move_out-Edits (some (list l)) source destination member now at s w h = here

if_left :
    {leaky : Bool} (b : Bool) (r r' : Outcome (Result StoreError Bool × Store)) (s : Store)
    → Edits leaky s (left_by r s)
    → Edits leaky s (left_by r' s)
    → Edits leaky s (left_by (if b then r else r') s)
if_left true r r' s p q = p
if_left false r r' s p q = q

move_from-Edits :
    {leaky : Bool} (o : Option StoreValue) (source destination member : Str) (t : Readings)
    (s : Store)
    → IsWellFormed s
    → Edits leaky s (left_by (move_from o source destination member t s) s)
unfolding move_from
move_from-Edits none source destination member t s w = here
move_from-Edits (some (set m)) source destination member t s w =
    if_left (is_set_or_missing (peek destination t.at_destination s)) _ _ s
      (if_left (contains member m) _ _ s
        (move_out-Edits (peek source t.at_removal s) source destination member t.at_removal
          t.at_insertion s w refl)
        here)
      here
move_from-Edits (some (str x)) source destination member t s w = here
move_from-Edits (some (list l)) source destination member t s w = here

pub smove-Edits :
    {leaky : Bool} (source destination member : Str) (t : Readings) (s : Store)
    → IsWellFormed s
    → Edits leaky s (left_by (smove source destination member t s) s)
unfolding smove
smove-Edits source destination member t s w =
    move_from-Edits (peek source t.at_source s) source destination member t s w
