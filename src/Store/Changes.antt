-- ===== src/Store/Changes.antt =====
-- Each operation of the store that writes is a sequence of edits.
use thesaurus.Prelude.{
  ℕ, ◌≤◌, ◌≡◌, refl, Bool, true, false, Option, none, some, List, [], ◌∷◌, arith, Str, length,
  Bool-cases, Option-cases, inl, inr,
}
use thesaurus.Map
use thesaurus.Store
use thesaurus.Store.{
  Store, StoreValue, str, list, set, peek, put, drop_key, has_passed, delete, get_del, set_ttl,
  persist, delete_bulk,
}
use thesaurus.Store.Strings.{get_del_string, mset}
use thesaurus.Store.Lists.{push_onto, pop_from, leave_rest, pop_loop}
use thesaurus.Store.Edits.{puts, drops, overwrites, expires, forgets, Edits, here, one, Edits-trans}

-- What is found has a value.
pub peek-get :
    (k : Str) (now : ℕ) (s : Store) (v : StoreValue)
    → peek k now s ≡ some v
    → Map.get k s.values ≡ some v
unfolding peek
peek-get k now s v h = ground arith

pub mset-Edits :
    {leaky : Bool} (items : List (Str × Str)) (s : Store) → Edits leaky s (mset items s)
unfolding mset
mset-Edits [] s = here
mset-Edits ((k, v) ∷ items) s =
    Edits-trans (one (puts k (str v) tt)) (mset-Edits items (put k (str v) s))

pub get_del_string-Edits :
    {leaky : Bool} (k : Str) (now : ℕ) (s : Store) → Edits leaky s (get_del_string k now s).1
unfolding get_del_string get_del
get_del_string-Edits k now s = elim (Bool-cases (Store.is_ahead now (Map.get k s.expiry_index))) [
  | inl e ↦ rw e (one (drops k))
  | inr e ↦ rw e here
]

pub set_ttl-Edits :
    {leaky : Bool} (k : Str) (deadline : ℕ) (s : Store) → Edits leaky s (set_ttl k deadline s).1
unfolding set_ttl
set_ttl-Edits k deadline s = elim (Option-cases (Map.get k s.values)) [
  | inl e ↦ rw e here
  | inr (v, e) ↦ rw e (one (expires k deadline v e))
]

pub delete_bulk-Edits :
    {leaky : Bool} (keys : List Str) (s : Store) → Edits leaky s (delete_bulk keys s)
unfolding delete_bulk
delete_bulk-Edits [] s = here
delete_bulk-Edits (k ∷ keys) s = Edits-trans (one (drops k)) (delete_bulk-Edits keys (drop_key k s))

pub push_onto-Edits :
    {leaky : Bool} (push_fn : List Str → Str → List Str) (o : Option StoreValue) (k x : Str)
    (create : Bool) (now : ℕ) (s : Store)
    → ((l : List Str) → 1 ≤ length (push_fn l x))
    → peek k now s ≡ o
    → Edits leaky s (push_onto o k x create push_fn s).1
unfolding push_onto
push_onto-Edits push_fn none k x true now s grows h = one (puts k (list (x ∷ [])) (omega arith))
push_onto-Edits push_fn none k x false now s grows h = here
push_onto-Edits push_fn (some (list l)) k x create now s grows h =
    one (overwrites k (list (push_fn l x)) (list l) (peek-get k now s (list l) h) (grows l))
push_onto-Edits push_fn (some (str t)) k x create now s grows h = here
push_onto-Edits push_fn (some (set m)) k x create now s grows h = here

leave_rest-Edits :
    (k : Str) (l : List Str) (v : StoreValue) (s : Store)
    → Map.get k s.values ≡ some v
    → Edits true s (leave_rest k l s)
unfolding leave_rest
leave_rest-Edits k [] v s h = one (forgets k refl)
leave_rest-Edits k (x ∷ l) v s h = one (overwrites k (list (x ∷ l)) v h (omega arith))

pub pop_from-Edits :
    (pop_fn : List Str → Option (Str × List Str)) (o : Option StoreValue) (k : Str) (count now : ℕ)
    (s : Store)
    → peek k now s ≡ o
    → Edits true s (pop_from o k count pop_fn s).1
unfolding pop_from
pop_from-Edits pop_fn none k count now s h = here
pop_from-Edits pop_fn (some (list l)) k count now s h =
    leave_rest-Edits k (pop_loop pop_fn count l).1 (list l) s (peek-get k now s (list l) h)
pop_from-Edits pop_fn (some (str t)) k count now s h = here
pop_from-Edits pop_fn (some (set m)) k count now s h = here
