-- ===== src/Store/Poisons.antt =====
-- When SMOVE of store/set.rs, which reads the clock four times under one lock, comes to the arms of its
-- matches that are marked unreachable.
use thesaurus.Prelude.{
  ℕ, ◌≤◌, ◌<◌, ◌≡◌, ◌↔◌, refl, ◌∙◌, Bool-cases, Option-cases, inl, inr, true, none, some, List, [],
  ◌∷◌, arith, Str, Option, poisoned, ◌≢◌,
}
use thesaurus.Map
use thesaurus.HashSet
use thesaurus.HashSet.{contains}
use thesaurus.Store.{Store, StoreValue, str, list, set, peek}
use thesaurus.Store.Changes.{peek-get}
use thesaurus.Store.Visible.{peek-drop_key}
use thesaurus.Store.Moves.{move_from_out}
use thesaurus.Store.Sets.{
  Readings, smove, move_from, move_out, move_in, leave_members, is_set_or_missing, write_back,
}

-- The source is a set with the member, its deadline lies ahead at the first reading of the clock and has
-- passed at the third, and the destination is a set or missing at the second.
abbrev pub Lapses : Str → Str → Str → Readings → Store → Type 0
Lapses source destination member t s =
    (m : List Str) × (deadline : ℕ) × (Map.get source s.values ≡ some (set m))
    × (Map.get source s.expiry_index ≡ some deadline)
    × (contains member m ≡ true)
    × (t.at_source < deadline)
    × (deadline ≤ t.at_removal)
    × (is_set_or_missing (peek destination t.at_destination s) ≡ true)

lapsed :
    (k : Str) (v : StoreValue) (a b : ℕ) (s : Store)
    → peek k a s ≡ some v
    → peek k b s ≡ none
    → (deadline : ℕ) × (Map.get k s.expiry_index ≡ some deadline) × (a < deadline) × (deadline ≤ b)
unfolding peek
lapsed k v a b s h g = elim (Option-cases (Map.get k s.expiry_index)) [
  | inl no_deadline ↦ absurd (ground arith)
  | inr (deadline, e) ↦ (deadline, e, ground arith, ground arith)
]

fits_later :
    (k : Str) (a b : ℕ) (s : Store)
    → a ≤ b
    → is_set_or_missing (peek k a s) ≡ true
    → is_set_or_missing (peek k b s) ≡ true
unfolding peek
fits_later k a b s le h = elim (Option-cases (Map.get k s.expiry_index)) [
  | inl no_deadline ↦ ground arith
  | inr (deadline, e) ↦ ground arith
]

-- What is taken from the source leaves a set or nothing there, and the rest as it was.
leave_members-fits :
    (k j : Str) (m : List Str) (now : ℕ) (s : Store)
    → is_set_or_missing (peek j now s) ≡ true
    → is_set_or_missing (peek j now (leave_members k m s)) ≡ true
unfolding leave_members
leave_members-fits k j [] now s h = ground (arith, peek-drop_key k j now s)
leave_members-fits k j (x ∷ m) now s h =
    unfold write_back peek in ground (arith, Map.get-insert k j (set (x ∷ m)) s.values)

move_in-returns :
    (o : Option StoreValue) (destination member : Str) (s : Store)
    → is_set_or_missing o ≡ true
    → move_in o destination member s ≢ poisoned
unfolding move_in
move_in-returns none destination member s h e = cc
move_in-returns (some (set m)) destination member s h e = cc
move_in-returns (some (str x)) destination member s h e = cc
move_in-returns (some (list l)) destination member s h e = cc

module _ (source destination member : Str) (t : Readings) (s : Store) where
  gone :
      (m : List Str) (o : Option StoreValue)
      → peek source t.at_source s ≡ some (set m)
      → peek source t.at_removal s ≡ o
      → is_set_or_missing (peek destination t.at_insertion s) ≡ true
      → move_out o source destination member t.at_insertion s ≡ poisoned
      → o ≡ none
  unfolding move_out
  gone m none h r d p = refl
  gone m (some (set l)) h r d p = absurd (
      move_in-returns _ destination member _
        (leave_members-fits source destination (HashSet.remove member l) t.at_insertion s d) p)
  gone m (some (str x)) h r d p =
      absurd (ground (arith, peek-get source _ s _ h, peek-get source _ s _ r))
  gone m (some (list l)) h r d p =
      absurd (ground (arith, peek-get source _ s _ h, peek-get source _ s _ r))

  lapses :
      (o : Option StoreValue)
      → t.at_destination ≤ t.at_insertion
      → peek source t.at_source s ≡ o
      → move_from o source destination member t s ≡ poisoned
      → Lapses source destination member t s
  unfolding move_from
  lapses none le h p = cc
  lapses (some (str x)) le h p = cc
  lapses (some (list l)) le h p = cc
  lapses (some (set m)) le h p =
      elim (Bool-cases (is_set_or_missing (peek destination t.at_destination s))) [
        | inr misses ↦ absurd (ground (arith, p, misses))
        | inl d ↦ elim (Bool-cases (HashSet.contains member m)) [
          | inr misses ↦ absurd (ground (arith, p, d, misses))
          | inl c ↦
              let later = fits_later destination t.at_destination t.at_insertion s le d in
              let r = gone m (peek source t.at_removal s) h refl later (rw (d, c) at p) in
              let (deadline, e, a, b) = lapsed source (set m) t.at_source t.at_removal s h r in
              (m, deadline, peek-get source t.at_source s (set m) h, e, c, a, b, d)
        ]
      ]

  poisons : Lapses source destination member t s → smove source destination member t s ≡ poisoned
  poisons (m, deadline, g, e, c, a, b, d) =
      move_from_out source destination member m t s (unfold peek in rw (e, g) (ground arith)) d c
      ∙ rw expired (unfold move_out in refl)
    where
      expired : peek source t.at_removal s ≡ none
      expired = unfold peek in rw (e, g) (ground arith)

  -- SMOVE, with a clock that does not go back between the second and the fourth reading, poisons the
  -- lock of the store exactly when the source is a set with the member whose deadline lies ahead at the
  -- first reading and has passed at the third, and the destination is a set or missing at the second.
  pub smove_poisons :
      t.at_destination ≤ t.at_insertion
      → (smove source destination member t s ≡ poisoned) ↔ Lapses source destination member t s
  smove_poisons le = (λ p. lapses (peek source t.at_source s) le refl (unfold smove in p), poisons)
