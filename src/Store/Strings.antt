-- ===== src/Store/Strings.antt =====
-- crates/thesaurus/src/store/string.rs
use thesaurus.Prelude.{ℕ, suc, Option, none, some, List, [], ◌∷◌, Str, Result, ok, err}
use thesaurus.Errors.{StoreError, wrong_type}
use thesaurus.Store.{Store, StoreValue, str, list, set, get, peek, put, get_del}

-- the match on `Option<StoreValue>` in `get_string` and `get_del_string`
abbrev pub as_string : Option StoreValue → Result StoreError (Option Str)
as_string (some (str s)) = ok (some s)
as_string (some (list l)) = err wrong_type
as_string (some (set m)) = err wrong_type
as_string none = ok none

unfoldable pub get_string : Str → ℕ → Store → Result StoreError (Option Str)
unfolding get
get_string key now s = as_string (get key now s)

unfoldable pub set_string : Str → Str → Store → Store
unfolding put
set_string key value s = put key (str value) s

unfoldable pub get_del_string : Str → ℕ → Store → Result StoreError (Option Str) × Store
unfolding get_del
get_del_string key now s = let (value, s') = get_del key now s in (as_string value, s')

-- the match on `guard.get(key)` in `mget`
abbrev pub string_or_none : Option StoreValue → Option Str
string_or_none (some (str s)) = some s
string_or_none (some (list l)) = none
string_or_none (some (set m)) = none
string_or_none none = none

-- `now` is the reading of the clock for the first key, `now 0`, then for the next one.
unfoldable pub mget : List Str → (ℕ → ℕ) → Store → List (Option Str)
unfolding peek
mget [] now s = []
mget (key ∷ keys) now s = string_or_none (peek key (now 0) s) ∷ mget keys (λ i. now (suc i)) s

-- The loop runs under one write lock.
unfoldable pub mset : List (Str × Str) → Store → Store
unfolding put
mset [] s = s
mset ((key, value) ∷ items) s = mset items (put key (str value) s)
