-- ===== src/Store/Sets.antt =====
-- crates/thesaurus/src/store/set.rs. Random draws come from the crate `rand`; they are arguments.
use thesaurus.Prelude.{
  ℕ, zero, suc, ◌+◌, Bool, true, false, Option, none, some, List, [], ◌∷◌, map, Str, Result, ok,
  err, Outcome, done, poisoned, if◌then◌else◌, length, replicate, get_elem?, ◌>>=◌, ltb,
}
use thesaurus.Map
use thesaurus.HashSet
use thesaurus.HashSet.{contains}
use thesaurus.Errors.{StoreError, wrong_type}
use thesaurus.Store.{Store, StoreValue, str, list, set, peek, put, drop_key}
use thesaurus.Store.Lists.{max_capacity}

-- A write through the reference that `get_mut` returned.
unfoldable pub write_back : Str → List Str → Store → Store
write_back key m s = record s { values = Map.insert key (set m) s.values }

-- `IteratorRandom::sample` on the members of a set, `none` if it panics, and `rng.random_range(0..n)` at its `i`-th call
pub record Rng : Type 0 where
  pub sample : List Str → ℕ → Option (List Str)
  pub random_range : ℕ → ℕ → ℕ

-- `members.into_iter().filter(|m| s.insert(m.clone())).count()`, with the set that is left
unfoldable pub insert_all : List Str → List Str → ℕ × List Str
unfolding HashSet.insert HashSet.contains
insert_all [] s = (0, s)
insert_all (m ∷ members) s =
    let (n, s') = insert_all members (HashSet.insert m s) in
    ((if contains m s then n else n + 1), s')

-- the match of `sadd` on the entry
unfoldable pub add_to : Option StoreValue → Str → List Str → Store → Result StoreError ℕ × Store
unfolding put insert_all HashSet.collect write_back
add_to none key members s = let m = HashSet.collect [] members in (ok (length m), put key (set m) s)
add_to (some (set m)) key members s =
    let (n, m') = insert_all members m in (ok n, write_back key m' s)
add_to (some (str _)) key members s = (err wrong_type, s)
add_to (some (list _)) key members s = (err wrong_type, s)

unfoldable pub sadd : Str → List Str → ℕ → Store → Result StoreError ℕ × Store
unfolding peek add_to
sadd key members now s = add_to (peek key now s) key members s

unfoldable pub smembers : Str → ℕ → Store → Result StoreError (List Str)
unfolding peek
smembers key now s = elim (peek key now s) [
  | none ↦ ok []
  | some (set m) ↦ ok m
  | some (str _) ↦ err wrong_type
  | some (list _) ↦ err wrong_type
]

-- `smembers(key)?.contains(&member)`, the `contains` of a `Vec`
unfoldable pub sismember : Str → Str → ℕ → Store → Result StoreError Bool
unfolding smembers HashSet.contains
sismember key member now s = do members ← smembers key now s; ok (contains member members)

unfoldable pub smismember : Str → List Str → ℕ → Store → Result StoreError (List Bool)
unfolding peek HashSet.contains
smismember key members now s = elim (peek key now s) [
  | none ↦ ok (replicate (length members) false)
  | some (set m) ↦ ok (map (λ member. contains member m) members)
  | some (str _) ↦ err wrong_type
  | some (list _) ↦ err wrong_type
]

-- `(0..amount).map(|_| members[rng.random_range(0..members.len())])`; `i` counts the calls made.
unfoldable pub draw : Rng → List Str → ℕ → ℕ → List (Option Str)
draw rng members i zero = []
draw rng members i (suc amount) =
    get_elem? members (rng.random_range i (length members)) ∷ draw rng members (suc i) amount

-- An index out of range panics.
unfoldable pub all_some : List (Option Str) → Option (List Str)
all_some [] = some []
all_some (none ∷ l) = none
all_some (some x ∷ l) = elim (all_some l) [ none ↦ none | some r ↦ some (x ∷ r) ]

abbrev pub unwrap_or : Option ℕ → ℕ → ℕ
unwrap_or none d = d
unwrap_or (some n) d = n

-- The branch of `srandmember` at a set; `none` is a panic: of `collect`, which reserves room for as many
-- as are asked for, of an index out of range, or of the draw.
unfoldable pub random_members : Rng → List Str → ℕ → Bool → Option (List Str)
unfolding draw all_some
random_members rng [] amount true = some []
random_members rng (x ∷ r) amount true =
    if ltb max_capacity amount then none else all_some (draw rng (x ∷ r) 0 amount)
random_members rng m amount false = rng.sample m amount

unfoldable pub srandmember :
    Rng → Str → Option ℕ → Bool → ℕ → Store → Option (Result StoreError (List Str))
unfolding peek random_members
srandmember rng key count allow_repetition now s = elim (peek key now s) [
  | none ↦ some (ok [])
  | some (set m) ↦ elim (random_members rng m (unwrap_or count 1) allow_repetition) [
    | none ↦ none
    | some members ↦ some (ok members)
  ]
  | some (str _) ↦ some (err wrong_type)
  | some (list _) ↦ some (err wrong_type)
]

unfoldable pub scard : Str → ℕ → Store → Result StoreError ℕ
unfolding peek
scard key now s = elim (peek key now s) [
  | none ↦ ok 0
  | some (set m) ↦ ok (length m)
  | some (str _) ↦ err wrong_type
  | some (list _) ↦ err wrong_type
]

-- The key goes, with its expiry, when the set has become empty.
unfoldable pub leave_members : Str → List Str → Store → Store
unfolding drop_key write_back
leave_members key [] s = drop_key key s
leave_members key (x ∷ m) s = write_back key (x ∷ m) s

-- The four reads of the clock of one `smove`, in the order in which they are made.
pub record Readings : Type 0 where
  pub at_source : ℕ
  pub at_destination : ℕ
  pub at_removal : ℕ
  pub at_insertion : ℕ

-- "Insert member to destination". The last arm of the match is `unreachable!`.
unfoldable pub move_in :
    Option StoreValue → Str → Str → Store → Outcome (Result StoreError Bool × Store)
unfolding put write_back HashSet.insert
move_in none destination member s = done (ok true, put destination (set (member ∷ [])) s)
move_in (some (set m)) destination member s =
    done (ok true, write_back destination (HashSet.insert member m) s)
move_in (some (str _)) destination member s = poisoned
move_in (some (list _)) destination member s = poisoned

-- "Remove member from source". What is no set is `unreachable!`.
unfoldable pub move_out :
    Option StoreValue → Str → Str → Str → ℕ → Store → Outcome (Result StoreError Bool × Store)
unfolding peek leave_members move_in HashSet.remove
move_out (some (set m)) source destination member t s =
    let s' = leave_members source (HashSet.remove member m) s in
    move_in (peek destination t s') destination member s'
move_out (some (str _)) source destination member t s = poisoned
move_out (some (list _)) source destination member t s = poisoned
move_out none source destination member t s = poisoned

-- the check of the destination's type
abbrev pub is_set_or_missing : Option StoreValue → Bool
is_set_or_missing none = true
is_set_or_missing (some (set _)) = true
is_set_or_missing (some (str _)) = false
is_set_or_missing (some (list _)) = false

-- the guards of `smove` on what it first reads at the source
unfoldable pub move_from :
    Option StoreValue
    → Str
    → Str
    → Str
    → Readings
    → Store
    → Outcome (Result StoreError Bool × Store)
unfolding peek move_out HashSet.contains
move_from none source destination member t s = done (ok false, s)
move_from (some (set m)) source destination member t s =
    if is_set_or_missing (peek destination t.at_destination s)
    then if contains member m
      then move_out (peek source t.at_removal s) source destination member t.at_insertion s
      else done (ok false, s)
    else done (err wrong_type, s)
move_from (some (str _)) source destination member t s = done (err wrong_type, s)
move_from (some (list _)) source destination member t s = done (err wrong_type, s)

unfoldable pub smove : Str → Str → Str → Readings → Store → Outcome (Result StoreError Bool × Store)
unfolding peek move_from
smove source destination member t s =
    move_from (peek source t.at_source s) source destination member t s

-- `for member in &popped { set.remove(member); }`
unfoldable pub remove_all : List Str → List Str → List Str
unfolding HashSet.remove
remove_all [] m = m
remove_all (x ∷ popped) m = remove_all popped (HashSet.remove x m)

-- What `spop` makes of the draw. It holds the lock for writing, which a panic poisons.
unfoldable pub take_popped :
    Option (List Str)
    → Str
    → List Str
    → Store
    → Outcome (Result StoreError (Option (List Str)) × Store)
unfolding remove_all leave_members
take_popped none key m s = poisoned
take_popped (some popped) key m s =
    done (ok (some popped), leave_members key (remove_all popped m) s)

-- the match of `spop` on the entry
unfoldable pub pop_members :
    Rng
    → Option StoreValue
    → Str
    → Option ℕ
    → Store
    → Outcome (Result StoreError (Option (List Str)) × Store)
unfolding take_popped
pop_members rng none key count s = done (ok none, s)
pop_members rng (some (set m)) key count s = take_popped (rng.sample m (unwrap_or count 1)) key m s
pop_members rng (some (str _)) key count s = done (err wrong_type, s)
pop_members rng (some (list _)) key count s = done (err wrong_type, s)

unfoldable pub spop :
    Rng → Str → Option ℕ → ℕ → Store → Outcome (Result StoreError (Option (List Str)) × Store)
unfolding peek pop_members
spop rng key count now s = pop_members rng (peek key now s) key count s

-- The loop of `srem`: the count of the members removed, with the set that is left.
unfoldable pub remove_counting : List Str → List Str → ℕ × List Str
unfolding HashSet.contains HashSet.remove
remove_counting [] m = (0, m)
remove_counting (x ∷ members) m =
    let (n, m') = remove_counting members (HashSet.remove x m) in
    ((if contains x m then n + 1 else n), m')

-- The match of `srem` on the entry. An empty set stays in the store.
unfoldable pub remove_from :
    Option StoreValue → Str → List Str → Store → Result StoreError ℕ × Store
unfolding remove_counting write_back
remove_from none key members s = (ok 0, s)
remove_from (some (set m)) key members s =
    let (n, m') = remove_counting members m in (ok n, write_back key m' s)
remove_from (some (str _)) key members s = (err wrong_type, s)
remove_from (some (list _)) key members s = (err wrong_type, s)

unfoldable pub srem : Str → List Str → ℕ → Store → Result StoreError ℕ × Store
unfolding peek remove_from
srem key members now s = remove_from (peek key now s) key members s
