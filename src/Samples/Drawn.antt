-- ===== src/Samples/Drawn.antt =====
-- SPOP with draws that take the front.
use thesaurus.Prelude.{
  ℕ, zero, suc, ◌≡◌, refl, true, none, some, List, [], ◌∷◌, arith, Str, codes, leb, if◌then◌else◌,
  Bool-cases, inl, inr, length, take,
}
use thesaurus.HashSet
use thesaurus.HashSet.{contains}
use thesaurus.Store.Draws.{IsRandom, Pops, spop_lem}
use thesaurus.Store.Sets.{Rng, spop}
use thesaurus.Samples.{members, shop}
use thesaurus.Samples.Stored.{a_there, members-IsDistinct}

-- draws that take the front
abbrev front : Rng
front = record { sample = λ l n. some (take n l); random_range = λ i n. 0 }

contains-take :
    (m : List Str) (n : ℕ) (x : Str) → contains x (take n m) ≡ true → contains x m ≡ true
unfolding contains
contains-take [] zero x h = h
contains-take [] (suc n) x h = h
contains-take (y ∷ m) zero x h = cc
contains-take (y ∷ m) (suc n) x h = ground (arith, contains-take m n x)

take-IsDistinct : (m : List Str) (n : ℕ) → HashSet.IsDistinct m → HashSet.IsDistinct (take n m)
take-IsDistinct [] zero d = d
take-IsDistinct [] (suc n) d = d
take-IsDistinct (y ∷ m) zero d = tt
take-IsDistinct (y ∷ m) (suc n) d = (
  elim (Bool-cases (contains y (take n m))) [
    | inl there ↦ absurd (ground (arith, contains-take m n y there, d))
    | inr not_there ↦ not_there
  ],
  take-IsDistinct m n d.1,
)

length-take_lem :
    (m : List Str) (n : ℕ) → length (take n m) ≡ (if leb n (length m) then n else length m)
length-take_lem [] zero = refl
length-take_lem [] (suc n) = ground arith
length-take_lem (y ∷ m) zero = ground arith
length-take_lem (y ∷ m) (suc n) = ground (arith, length-take_lem m n)

front-IsRandom : IsRandom front
front-IsRandom = record {
  sample-IsSample = λ m n fits. (
    take n m,
    refl,
    (λ x h. contains-take m n x h, λ d. take-IsDistinct m n d, length-take_lem m n),
  );
  in_range = λ i n h. h;
}

spop_lem_example : Pops (codes "a") 5 shop members 1 (spop front (codes "a") none 5 shop)
spop_lem_example =
    spop_lem front (codes "a") none 5 shop members front-IsRandom a_there members-IsDistinct
      (omega arith)
