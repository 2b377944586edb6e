-- ===== src/Store.antt =====
-- crates/thesaurus/src/store/mod.rs: the two maps behind the lock, and the operations on any key.
-- An operation that takes the lock once is one function of the state under it. Each call of
-- `Instant::now()` is an argument, a number of nanoseconds.
pub mod Strings
pub mod Lists
pub mod Sets
pub mod Visible
pub mod Listing
pub mod Queues
pub mod Ranges
pub mod Members
pub mod Draws
pub mod Edits
pub mod Changes
pub mod SetChanges
pub mod Leftovers
pub mod Moves
pub mod Poisons
use thesaurus.Prelude.{
  ℕ, Bool, true, false, ◌&&◌, ◌||◌, Option, none, some, List, [], ◌∷◌, Str, codes, str_eq, ltb, leb,
  if◌then◌else◌, filter, is_some,
}
use thesaurus.Map
use thesaurus.Map.{Map}
use thesaurus.Pattern.{string_match}

pub data StoreValue : Type 0 where
  str : Str → StoreValue
  list : List Str → StoreValue
  set : List Str → StoreValue

-- `StoreInner`; its field `data` is `values` here.
pub record Store : Type 0 where
  pub values : Map StoreValue
  pub expiry_index : Map ℕ

-- `is_some_and(|v| Instant::now() >= *v)` on an expiry entry
abbrev pub has_passed : ℕ → Option ℕ → Bool
has_passed now none = false
has_passed now (some v) = leb v now

-- `is_none_or(|v| Instant::now() < *v)` on an expiry entry
abbrev pub is_ahead : ℕ → Option ℕ → Bool
is_ahead now none = true
is_ahead now (some v) = ltb now v

-- `StoreInner::get`, and the read of `StoreInner::get_mut`
unfoldable pub peek : Str → ℕ → Store → Option StoreValue
peek key now s = if has_passed now (Map.get key s.expiry_index) then none else Map.get key s.values

unfoldable pub new : Store
new = record { values = Map.empty; expiry_index = Map.empty }

unfoldable pub get : Str → ℕ → Store → Option StoreValue
get key now s = if is_ahead now (Map.get key s.expiry_index) then Map.get key s.values else none

unfoldable pub put : Str → StoreValue → Store → Store
put key value s = record {
  expiry_index = Map.remove key s.expiry_index;
  values = Map.insert key value s.values;
}

-- `guard.expiry_index.remove(key); guard.data.remove(key)`
unfoldable pub drop_key : Str → Store → Store
drop_key key s = record {
  expiry_index = Map.remove key s.expiry_index;
  values = Map.remove key s.values;
}

unfoldable pub delete : Str → Store → Bool × Store
unfolding drop_key
delete key s = (Map.contains_key key s.values, drop_key key s)

unfoldable pub get_del : Str → ℕ → Store → Option StoreValue × Store
unfolding drop_key
get_del key now s =
    if is_ahead now (Map.get key s.expiry_index)
    then (Map.get key s.values, drop_key key s)
    else (none, s)

unfoldable pub exists : Str → ℕ → Store → Bool
exists key now s = Map.contains_key key s.values && is_ahead now (Map.get key s.expiry_index)

unfoldable pub get_ttl : Str → Store → Option ℕ
get_ttl key s = Map.get key s.expiry_index

unfoldable pub set_ttl : Str → ℕ → Store → Bool × Store
set_ttl key ttl s =
    if Map.contains_key key s.values
    then (true, record s { expiry_index = Map.insert key ttl s.expiry_index })
    else (false, s)

unfoldable pub persist : Str → Store → Bool × Store
persist key s =
    (Map.contains_key key s.expiry_index, record s { expiry_index = Map.remove key s.expiry_index })

-- `IteratorRandom::sample` of the crate `rand`, on the entries of the expiry index, is an argument.
unfoldable pub sample_eviction_index :
    (List (Str × ℕ) → ℕ → List (Str × ℕ)) → ℕ → Store → List (Str × ℕ)
sample_eviction_index sample n s = sample s.expiry_index.entries n

unfoldable pub delete_bulk : List Str → Store → Store
unfolding drop_key
delete_bulk [] s = s
delete_bulk (key ∷ keys) s = delete_bulk keys (drop_key key s)

-- `pattern == b"*"`
abbrev pub all_keys : Str → Bool
all_keys pattern = str_eq pattern (codes "*")

-- the test of the filter in `Store::keys`
unfoldable pub is_listed : Str → ℕ → Store → Str → Bool
is_listed pattern now s key =
    (all_keys pattern || string_match key pattern) && is_ahead now (Map.get key s.expiry_index)

unfoldable pub keys : Str → ℕ → Store → List Str
unfolding is_listed
keys pattern now s = filter (is_listed pattern now s) (Map.keys s.values)

unfoldable pub size : Store → ℕ
size s = Map.len s.values

unfoldable pub clear : Store → Store
clear s = record { expiry_index = Map.empty; values = Map.empty }

-- `mem::take` leaves an empty map behind; the old maps are dropped by another task.
unfoldable pub clear_async : Store → Store
clear_async s = record { values = Map.empty; expiry_index = Map.empty }
