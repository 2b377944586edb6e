-- ===== src/Store/Moves.antt =====
-- SMOVE of store/set.rs reads the clock four times under one lock: what it does while the clock
-- stands still.
use thesaurus.Prelude.{
  ℕ, ◌≡◌, refl, Bool, true, false, Option, none, some, List, [], ◌∷◌, arith, Str, str_eq,
  if◌then◌else◌, Result, ok, Outcome, done, ◌∙◌,
}
use thesaurus.HashSet
use thesaurus.HashSet.{contains}
use thesaurus.Errors.{StoreError}
use thesaurus.Store.{Store, StoreValue, str, list, set, peek, put}
use thesaurus.Store.Visible.{peek-drop_key, peek-put}
use thesaurus.Store.Members.{peek-write_back, members_of}
use thesaurus.Store.Sets.{
  Readings, smove, move_from, move_out, move_in, leave_members, is_set_or_missing, write_back,
}

pub move_from_out :
    (source destination member : Str) (m : List Str) (t : Readings) (s : Store)
    → peek source t.at_source s ≡ some (set m)
    → is_set_or_missing (peek destination t.at_destination s) ≡ true
    → contains member m ≡ true
    → smove source destination member t s
      ≡ move_out (peek source t.at_removal s) source destination member t.at_insertion s
move_from_out source destination member m t s h d c =
    unfold smove in rw h (unfold move_from in rw (d, c))

-- the set that a reader finds; none is left once it is empty
abbrev pub set_or_none : List Str → Option StoreValue
set_or_none [] = none
set_or_none (x ∷ m) = some (set (x ∷ m))

pub peek-leave_members :
    (k j : Str) (m : List Str) (w : StoreValue) (now : ℕ) (s : Store)
    → peek k now s ≡ some w
    → peek j now (leave_members k m s) ≡ (if str_eq k j then set_or_none m else peek j now s)
unfolding leave_members
peek-leave_members k j [] w now s h = peek-drop_key k j now s
peek-leave_members k j (x ∷ m) w now s h = peek-write_back k j (x ∷ m) w now s h

-- four readings of a clock that stands still
abbrev pub still : ℕ → Readings
still now = record { at_source = now; at_destination = now; at_removal = now; at_insertion = now }

-- The effect of a move, as a reader at `now` finds it.
abbrev pub MovesIn :
    Str → Str → ℕ → Store → Option StoreValue → Outcome (Result StoreError Bool × Store) → Type 0
MovesIn destination member now s o r =
    (s' : Store) × (r ≡ done (ok true, s'))
    × ((j : Str)
        → peek j now s' ≡ (
            if str_eq destination j
            then some (set (HashSet.insert member (members_of o)))
            else peek j now s))

move_in_lem :
    (o : Option StoreValue) (destination member : Str) (now : ℕ) (s : Store)
    → peek destination now s ≡ o
    → is_set_or_missing o ≡ true
    → MovesIn destination member now s o (move_in o destination member s)
unfolding move_in HashSet.insert contains
move_in_lem none destination member now s h e = (
  put destination (set (member ∷ [])) s,
  refl,
  λ j. peek-put destination j (set (member ∷ [])) now s,
)
move_in_lem (some (set m)) destination member now s h e = (
  write_back destination (HashSet.insert member m) s,
  refl,
  λ j. peek-write_back destination j (HashSet.insert member m) (set m) now s h,
)
move_in_lem (some (str t)) destination member now s h e = ground arith
move_in_lem (some (list l)) destination member now s h e = ground arith

-- SMOVE between two keys while the clock stands still: where the source is a set with the member
-- and the destination is a set or missing, the reply is true, a reader finds the source without the
-- member, or gone if that was the last one, the destination with the member, and every other key as
-- it was.
pub smove_lem :
    (source destination member : Str) (m : List Str) (now : ℕ) (s : Store)
    → peek source now s ≡ some (set m)
    → contains member m ≡ true
    → is_set_or_missing (peek destination now s) ≡ true
    → str_eq source destination ≡ false
    → (s' : Store) × (smove source destination member (still now) s ≡ done (ok true, s'))
      × ((j : Str)
          → peek j now s' ≡ (
              if str_eq destination j
              then some (set (HashSet.insert member (members_of (peek destination now s))))
              else if str_eq source j
              then set_or_none (HashSet.remove member m)
              else peek j now s))
smove_lem source destination member m now s h c d ne =
    let (s', e, f) = move_in_lem (peek destination now s) destination member now left same d in
    (
      s',
      move_from_out source destination member m (still now) s h d c
          ∙ rw h (unfold move_out in rw same e),
      λ j.
          ground
            (arith, f j, peek-leave_members source j (HashSet.remove member m) (set m) now s h),
    )
  where
    left : Store
    left = leave_members source (HashSet.remove member m) s

    same : peek destination now left ≡ peek destination now s
    same =
        ground
          (arith, peek-leave_members source destination (HashSet.remove member m) (set m) now s h)
