-- ===== src/Store/Visible.antt =====
-- What a reader finds after the operations of store/mod.rs and store/string.rs, key by key.
use thesaurus.Prelude.{
  ℕ, suc, ◌≤◌, ◌≡◌, refl, Bool, true, false, ◌&&◌, Option, none, some, List, [], ◌∷◌, arith, Str,
  str_eq, str_eq_iff, if◌then◌else◌, is_some,
}
use thesaurus.Map
use thesaurus.Map.{Map}
use thesaurus.Store.{
  Store, StoreValue, str, peek, get, put, drop_key, set_ttl, persist, delete_bulk,
}
use thesaurus.Store.Strings.{as_string, get_del_string, mset}

-- `Store::get` and `StoreInner::get` find the same.
pub get-eq-peek : (k : Str) (now : ℕ) (s : Store) → get k now s ≡ peek k now s
unfolding get peek
get-eq-peek k now s = ground arith

-- A value that is set is found at any time, and no other key changes.
pub peek-put :
    (k j : Str) (v : StoreValue) (now : ℕ) (s : Store)
    → peek j now (put k v s) ≡ (if str_eq k j then some v else peek j now s)
unfolding peek put
peek-put k j v now s =
    ground (arith, Map.get-remove k j s.expiry_index, Map.get-insert k j v s.values)

pub peek-drop_key :
    (k j : Str) (now : ℕ) (s : Store)
    → peek j now (drop_key k s) ≡ (if str_eq k j then none else peek j now s)
unfolding peek drop_key
peek-drop_key k j now s =
    ground (arith, Map.get-remove k j s.expiry_index, Map.get-remove k j s.values)

-- the last value that the batch gives to the key
abbrev pub last_value : Str → List (Str × Str) → Option StoreValue → Option StoreValue
last_value j [] found = found
last_value j ((k, v) ∷ items) found =
    last_value j items (if str_eq k j then some (str v) else found)

-- After MSET a reader finds at each key the last value that the batch gives it, at any time, since
-- its expiry is gone; at a key outside the batch the reader finds what was there.
pub peek-mset :
    (items : List (Str × Str)) (j : Str) (now : ℕ) (s : Store)
    → peek j now (mset items s) ≡ last_value j items (peek j now s)
unfolding mset
peek-mset [] j now s = refl
peek-mset ((k, v) ∷ items) j now s =
    rw (peek-mset items j now (put k (str v) s), peek-put k j (str v) now s)

-- GETDEL, on every branch: the reply is the string found or a type error, and whatever was found is
-- gone, a list or a set too, though for those the reply is an error. What is not found stays.
pub get_del_string_lem :
    (k j : Str) (now t : ℕ) (s : Store)
    → ((get_del_string k now s).0 ≡ as_string (peek k now s))
      × (peek j t (get_del_string k now s).1
          ≡ (if str_eq k j && is_some (peek k now s) then none else peek j t s))
unfolding get_del_string peek
get_del_string_lem k j now t s = (
  ground arith,
  ground (arith, Map.get-remove k j s.expiry_index, Map.get-remove k j s.values, str_eq_iff k j),
)

-- Deleting a batch hides exactly its keys.
abbrev pub is_among : Str → List Str → Bool
is_among j [] = false
is_among j (k ∷ keys) = if str_eq k j then true else is_among j keys

pub peek-delete_bulk :
    (keys : List Str) (j : Str) (now : ℕ) (s : Store)
    → peek j now (delete_bulk keys s) ≡ (if is_among j keys then none else peek j now s)
unfolding delete_bulk
peek-delete_bulk [] j now s = refl
peek-delete_bulk (k ∷ keys) j now s =
    ground (arith, peek-delete_bulk keys j now (drop_key k s), peek-drop_key k j now s)

-- PERSIST and EXPIRE look at the maps and not at the clock: they bring back what has expired and
-- has not been evicted. For every key with a value and a deadline that has passed, the reader who
-- found nothing finds the value again after PERSIST, and after EXPIRE sets a deadline ahead.
pub expired_returns :
    (k : Str) (v : StoreValue) (deadline now later : ℕ) (s : Store)
    → Map.get k s.values ≡ some v
    → Map.get k s.expiry_index ≡ some deadline
    → deadline ≤ now
    → suc now ≤ later
    → (peek k now s ≡ none)
      × (peek k now (persist k s).1 ≡ some v)
      × (peek k now (set_ttl k later s).1 ≡ some v)
unfolding peek persist set_ttl
expired_returns k v deadline now later s hv he h l = (
  ground arith,
  ground (arith, Map.get-remove_self k s.expiry_index),
  ground (arith, Map.get-insert_self k later s.expiry_index),
)
