-- ===== src/Samples/Stored.antt =====
-- The operations of the store, on the sample store.
use thesaurus.Prelude.{
  map, done, List, ◌≡◌, refl, ◌&&◌, ◌||◌, none, some, [], ◌∷◌, arith, codes, str_eq, if◌then◌else◌,
  ok, done, poisoned, is_some, pos, negsuc,
}
use thesaurus.Map
use thesaurus.HashSet
use thesaurus.HashSet.{contains}
use thesaurus.Pattern.{string_match}
use thesaurus.Store
use thesaurus.Store.{
  Store, StoreValue, str, list, set, peek, put, get_ttl, persist, set_ttl, all_keys,
}
use thesaurus.Store.Strings.{as_string, get_del_string}
use thesaurus.Store.Lists.{lpop, elements_between}
use thesaurus.Store.Sets.{smove, Readings}
use thesaurus.Executor.Lists.{lpush, rpush}
use thesaurus.Executor.Pushes.{LeavesList, push_lem}
use thesaurus.Store.Queues.{Pops, lpop_lem}
use thesaurus.Store.Ranges.{elements_between_lem}
use thesaurus.Store.Poisons.{smove_poisons}
use thesaurus.Store.Visible.{get_del_string_lem, expired_returns}
use thesaurus.Store.Listing.{contains-keys_listed}
use thesaurus.Store.Leftovers.{lpop_leaves_deadline}
use thesaurus.Ttl.{evict_expired}
use thesaurus.Ttl.{spawn}
use thesaurus.Ttl.Daemon.{Round, quiet, AreRounds, spawn_lem}
use thesaurus.Ttl.Eviction.{evict_expired_loses}
use thesaurus.Samples.{elements, members, env, shop}

q_there : peek (codes "q") 5 shop ≡ some (list elements)
unfolding peek Map.get str_eq
q_there = refl

pub a_there : peek (codes "a") 5 shop ≡ some (set members)
unfolding peek Map.get str_eq
a_there = refl

pub members-IsDistinct : HashSet.IsDistinct members
unfolding contains str_eq
members-IsDistinct = (refl, (refl, tt))

lpop_lem_example :
    Pops
      (codes "q")
      5
      shop
      (codes "x" ∷ codes "y" ∷ [])
      (codes "z" ∷ [])
      (lpop (codes "q") 2 5 shop)
lpop_lem_example = lpop_lem (codes "q") 2 5 shop elements q_there (omega arith)

elements_between_lem_example :
    elements_between elements (negsuc 1) (pos 9) ≡ codes "y" ∷ codes "z" ∷ []
elements_between_lem_example = elements_between_lem (negsuc 1) (pos 9) elements

-- the set under `a`, with a deadline of 10
abbrev short_lived : Store
short_lived = record {
  values = shop.values;
  expiry_index = record { entries = (codes "a", 10) ∷ [] };
}

abbrev over_the_deadline : Readings
over_the_deadline = record { at_source = 9; at_destination = 9; at_removal = 10; at_insertion = 10 }

smove_poisons_example :
    smove (codes "a") (codes "b") (codes "m") over_the_deadline short_lived ≡ poisoned
unfolding Map.get str_eq contains peek
smove_poisons_example =
    (smove_poisons (codes "a") (codes "b") (codes "m") over_the_deadline short_lived
        (omega arith)).1
      (members, 10, refl, refl, refl, omega arith, omega arith, refl)

get_del_string_lem_example :
    ((get_del_string (codes "q") 5 shop).0 ≡ as_string (peek (codes "q") 5 shop))
    × (peek (codes "q") 5 (get_del_string (codes "q") 5 shop).1 ≡ (
        if str_eq (codes "q") (codes "q") && is_some (peek (codes "q") 5 shop)
        then none
        else peek (codes "q") 5 shop))
get_del_string_lem_example = get_del_string_lem (codes "q") (codes "q") 5 5 shop

expired_returns_example :
    (peek (codes "t") 11 shop ≡ none)
    × (peek (codes "t") 11 (persist (codes "t") shop).1 ≡ some (str (codes "text")))
    × (peek (codes "t") 11 (set_ttl (codes "t") 20 shop).1 ≡ some (str (codes "text")))
unfolding str_eq
expired_returns_example =
    expired_returns (codes "t") (str (codes "text")) 10 11 20 shop (unfold Map.get in refl)
      (unfold Map.get in refl) (omega arith) (omega arith)

contains-keys_listed_example : contains (codes "t") (Store.keys (codes "[s-u]") 5 shop) ≡ (
    is_some (peek (codes "t") 5 shop)
    && (all_keys (codes "[s-u]") || string_match (codes "t") (codes "[s-u]")))
contains-keys_listed_example = contains-keys_listed (codes "[s-u]") (codes "t") 5 shop

lpop_leaves_deadline_example :
    (s' : Store) × (lpop (codes "q") 7 5 shop ≡ done (ok (some elements), s'))
    × (Map.get (codes "q") s'.values ≡ none)
    × (get_ttl (codes "q") s' ≡ some 100)
unfolding str_eq
lpop_leaves_deadline_example =
    lpop_leaves_deadline (codes "q") 7 5 100 (codes "x") (codes "y" ∷ codes "z" ∷ []) shop q_there
      (unfold get_ttl Map.get in refl) (omega arith) (omega arith)

abbrev two_rounds : List Round
two_rounds = (λ l n. l, 50) ∷ (λ l n. [], 55) ∷ []

two_rounds-AreRounds : AreRounds 60 two_rounds shop
unfolding Map.get str_eq Store.sample_eviction_index
two_rounds-AreRounds = (omega arith, (refl, (refl, tt)), (omega arith, tt, tt))

spawn_lem_example :
    (u : Store.Store) × (spawn 100 (map quiet two_rounds) shop ≡ done u)
    × (peek (codes "t") 60 u ≡ peek (codes "t") 60 shop)
spawn_lem_example = spawn_lem 100 two_rounds (codes "t") 60 shop (omega arith) two_rounds-AreRounds

evict_expired_loses_example :
    (peek (codes "t") 60 (put (codes "t") (str (codes "new")) shop) ≡ some (str (codes "new")))
    × (peek (codes "t") 60 (evict_expired (λ l n. l) 50 (put (codes "t") (str (codes "new"))) shop)
        ≡ none)
evict_expired_loses_example =
    evict_expired_loses (λ l n. l) ((codes "q", 100) ∷ []) (codes "t") (str (codes "new")) 10 50 60
      shop (unfold Store.sample_eviction_index in refl) (omega arith)

push_lem_example :
    LeavesList
      (codes "q")
      7
      shop
      (codes "w" ∷ codes "v" ∷ codes "x" ∷ codes "y" ∷ codes "z" ∷ [])
      (lpush env (codes "q") (codes "v" ∷ codes "w" ∷ []) shop)
    × LeavesList
        (codes "q")
        7
        shop
        (codes "x" ∷ codes "y" ∷ codes "z" ∷ codes "v" ∷ codes "w" ∷ [])
        (rpush env (codes "q") (codes "v" ∷ codes "w" ∷ []) shop)
unfolding peek Map.get str_eq
push_lem_example =
    push_lem env (codes "q") (codes "v") (codes "w" ∷ []) 7 (some elements) shop (λ i. refl) refl
