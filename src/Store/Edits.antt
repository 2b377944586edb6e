-- ===== src/Store/Edits.antt =====
-- What the operations of the store do to its two maps, as a relation: every operation is a sequence
-- of these edits, and the invariants are kept by each of them.
use thesaurus.Prelude.{
  ℕ, ◌≤◌, ◌≡◌, refl, Bool, true, false, Option, none, some, arith, Str, str_eq, str_eq_iff, length,
  ◌≢◌, Bool-cases, inl, inr,
}
use thesaurus.Map
use thesaurus.Map.{Map}
use thesaurus.HashSet
use thesaurus.Store.{Store, StoreValue, str, list, set, put, drop_key}

-- A value as the store keeps it: no list is empty, and no member stands twice in a set.
abbrev pub IsProper : StoreValue → Type 0
IsProper (str t) = Unit
IsProper (list l) = 1 ≤ length l
IsProper (set m) = HashSet.IsDistinct m

-- One edit. `leaky` tells whether a value may go while its deadline stays.
pub data Edit (leaky : Bool) (s : Store) : Store → Type 0 where
  puts : (k : Str) (v : StoreValue) → IsProper v → Edit leaky s (put k v s)
  drops : (k : Str) → Edit leaky s (drop_key k s)
  overwrites :
      (k : Str) (v w : StoreValue)
      → Map.get k s.values ≡ some w
      → IsProper v
      → Edit leaky s (record s { values = Map.insert k v s.values })
  expires :
      (k : Str) (deadline : ℕ) (w : StoreValue)
      → Map.get k s.values ≡ some w
      → Edit leaky s (record s { expiry_index = Map.insert k deadline s.expiry_index })
  persists : (k : Str) → Edit leaky s (record s { expiry_index = Map.remove k s.expiry_index })
  clears : Edit leaky s (record { values = Map.empty; expiry_index = Map.empty })
  forgets : (k : Str) → leaky ≡ true → Edit leaky s (record s { values = Map.remove k s.values })

pub data Edits (leaky : Bool) (s : Store) : Store → Type 0 where
  here : Edits leaky s s
  next : {t u : Store} → Edits leaky s t → Edit leaky t u → Edits leaky s u

pub one : {leaky : Bool} {s t : Store} → Edit leaky s t → Edits leaky s t
one e = next here e

pub Edits-trans :
    {leaky : Bool} {s t u : Store} → Edits leaky s t → Edits leaky t u → Edits leaky s u
Edits-trans p here = p
Edits-trans p (next q e) = next (Edits-trans p q) e

-- what is under a key, if anything is
abbrev pub IsProperAt : Option StoreValue → Type 0
IsProperAt none = Unit
IsProperAt (some v) = IsProper v

-- Every value is one that the store keeps, and no key stands twice in the map of the values.
pub record IsWellFormed (s : Store) : Type 0 where
  pub proper : (k : Str) → IsProperAt (Map.get k s.values)
  pub distinct : HashSet.IsDistinct (Map.keys s.values)

-- no deadline under a key without a value
abbrev pub IsIndexedAt : Option StoreValue → Option ℕ → Type 0
IsIndexedAt none (some deadline) = ⊥
IsIndexedAt none none = Unit
IsIndexedAt (some v) deadline = Unit

-- Only keys with a value have a deadline.
abbrev pub IsIndexed : Store → Type 0
IsIndexed s = (k : Str) → IsIndexedAt (Map.get k s.values) (Map.get k s.expiry_index)

same_value : (v w : StoreValue) → some v ≡ some w → IsProper v → IsProper w
same_value v w e p = let same : v ≡ w = cc in rw (← same) p

pub value-IsProper :
    (k : Str) (v : StoreValue) (s : Store)
    → IsWellFormed s
    → Map.get k s.values ≡ some v
    → IsProper v
value-IsProper k v s w e = at (Map.get k s.values) (w.proper k) e
  where
    at : (o : Option StoreValue) → IsProperAt o → o ≡ some v → IsProper v
    at none p f = cc
    at (some u) p f = same_value u v f p

all_proper : (o : Option StoreValue) → ((v : StoreValue) → o ≡ some v → IsProper v) → IsProperAt o
all_proper none h = tt
all_proper (some v) h = h v refl

no_deadline : (o : Option StoreValue) (d : Option ℕ) → IsIndexedAt o d → o ≡ none → d ≡ none
no_deadline none none i e = refl
no_deadline none (some t) i e = absurd i
no_deadline (some v) d i e = cc

all_indexed : (o : Option StoreValue) (d : Option ℕ) → (o ≡ none → d ≡ none) → IsIndexedAt o d
all_indexed none none h = tt
all_indexed none (some t) h = let e = h refl in cc
all_indexed (some v) d h = tt

pub nothing : (j : Str) (v : StoreValue) → Map.get j Map.empty ≢ some v
nothing j v e = ground (arith, Map.get-empty {V = StoreValue} j)

insert-IsProper :
    (k j : Str) (v w : StoreValue) (m : Map StoreValue)
    → ((i : Str) (u : StoreValue) → Map.get i m ≡ some u → IsProper u)
    → IsProper v
    → Map.get j (Map.insert k v m) ≡ some w
    → IsProper w
insert-IsProper k j v w m h p e = elim (Bool-cases (str_eq k j)) [
  | inl same ↦ same_value v w (ground (arith, Map.get-insert k j v m)) p
  | inr other ↦ h j w (ground (arith, Map.get-insert k j v m))
]

remove-IsProper :
    (k j : Str) (w : StoreValue) (m : Map StoreValue)
    → ((i : Str) (u : StoreValue) → Map.get i m ≡ some u → IsProper u)
    → Map.get j (Map.remove k m) ≡ some w
    → IsProper w
remove-IsProper k j w m h e = h j w (ground (arith, Map.get-remove k j m))

pub Edit-IsWellFormed :
    {leaky : Bool} {s t : Store} → Edit leaky s t → IsWellFormed s → IsWellFormed t
unfolding put drop_key
Edit-IsWellFormed {s = s} (puts k v p) w = record {
  proper = λ j.
      all_proper _ λ u e. insert-IsProper k j v u s.values (λ i x f. value-IsProper i x s w f) p e;
  distinct = Map.keys-insert-IsDistinct k v s.values w.distinct;
}
Edit-IsWellFormed {s = s} (drops k) w = record {
  proper =
      λ j. all_proper _ λ u e. remove-IsProper k j u s.values (λ i x f. value-IsProper i x s w f) e;
  distinct = Map.keys-remove-IsDistinct k s.values w.distinct;
}
Edit-IsWellFormed {s = s} (overwrites k v old h p) w = record {
  proper = λ j.
      all_proper _ λ u e. insert-IsProper k j v u s.values (λ i x f. value-IsProper i x s w f) p e;
  distinct = Map.keys-insert-IsDistinct k v s.values w.distinct;
}
Edit-IsWellFormed (expires k deadline old h) w = record { proper = w.proper; distinct = w.distinct }
Edit-IsWellFormed (persists k) w = record { proper = w.proper; distinct = w.distinct }
Edit-IsWellFormed clears w = record {
  proper = λ j. all_proper _ λ u e. absurd (nothing j u e);
  distinct = unfold Map.keys Map.empty in tt;
}
Edit-IsWellFormed {s = s} (forgets k h) w = record {
  proper =
      λ j. all_proper _ λ u e. remove-IsProper k j u s.values (λ i x f. value-IsProper i x s w f) e;
  distinct = Map.keys-remove-IsDistinct k s.values w.distinct;
}

pub Edits-IsWellFormed :
    {leaky : Bool} {s t : Store} → Edits leaky s t → IsWellFormed s → IsWellFormed t
Edits-IsWellFormed here w = w
Edits-IsWellFormed (next p e) w = Edit-IsWellFormed e (Edits-IsWellFormed p w)

Edit-indexed :
    {s t : Store}
    → Edit false s t
    → ((k : Str) → Map.get k s.values ≡ none → Map.get k s.expiry_index ≡ none)
    → (k : Str) → Map.get k t.values ≡ none
    → Map.get k t.expiry_index ≡ none
unfolding put drop_key
Edit-indexed {s = s} (puts k v p) w j e =
    ground (arith, w j, Map.get-insert k j v s.values, Map.get-remove k j s.expiry_index)
Edit-indexed {s = s} (drops k) w j e =
    ground (arith, w j, Map.get-remove k j s.values, Map.get-remove k j s.expiry_index)
Edit-indexed {s = s} (overwrites k v old h p) w j e =
    ground (arith, w j, Map.get-insert k j v s.values)
Edit-indexed {s = s} (expires k deadline old h) w j e =
    ground (arith, w j, Map.get-insert k j deadline s.expiry_index, str_eq_iff k j)
Edit-indexed {s = s} (persists k) w j e = ground (arith, w j, Map.get-remove k j s.expiry_index)
Edit-indexed clears w j e = Map.get-empty j
Edit-indexed (forgets k h) w j e = ground arith

pub Edits-IsIndexed : {s t : Store} → Edits false s t → IsIndexed s → IsIndexed t
Edits-IsIndexed here w k = w k
Edits-IsIndexed {s} {t} (next {t = m} p e) w k =
    all_indexed (Map.get k t.values) (Map.get k t.expiry_index) (
      Edit-indexed e
        (λ j. no_deadline (Map.get j m.values) (Map.get j m.expiry_index) (Edits-IsIndexed p w j))
        k)
