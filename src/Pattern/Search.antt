-- ===== src/Pattern/Search.antt =====
-- The search of pattern.rs, with its flag and its limit on the depth, decides `Matches`.
use thesaurus.Prelude.{
  ℕ, zero, suc, ◌+◌, ◌≤◌, ◌≡◌, ◌≢◌, ◌↔◌, inl, inr, refl, Bool, true, false, Option, none, some, [],
  ◌∷◌, arith, Str, ◌==◌, ==_iff, ltb, length, Bool-cases,
}
use thesaurus.Pattern.{
  max_depth, skip_stars, consume, is_empty, star_loop, after_try, star_arm, next_round, at_depth,
  match_loop, string_match,
}
use thesaurus.Pattern.Glob.{
  Matches, both_end, item, leave, take, stars, consume-shrinks, consume-rest,
}

-- The pattern matches a suffix of the string.
data Somewhere (p : Str) : Str → Type 0 where
  here : {s : Str} → Matches s p → Somewhere p s
  later : {c : ℕ} {s : Str} → Somewhere p s → Somewhere p (c ∷ s)

item_inv :
    {c x : ℕ} {s p : Str}
    → x ≢ b'*'
    → Matches (c ∷ s) (x ∷ p)
    → (rest : Str) × (consume c x p ≡ some rest) × Matches s rest
item_inv n (item h e d) = (_, e, d)
item_inv n (leave e d) = absurd (n e)
item_inv n (take e d) = absurd (n e)

not-item-nil : {x : ℕ} {p : Str} → x ≢ b'*' → ¬ Matches [] (x ∷ p)
not-item-nil n (leave e d) = n e

not-Somewhere-nil : {x : ℕ} {p : Str} → x ≢ b'*' → ¬ Somewhere (x ∷ p) []
not-Somewhere-nil n (here d) = not-item-nil n d

-- Wherever the item matches, the rest of the pattern matches behind its byte.
drop_item :
    (c : ℕ) {x : ℕ} {p rest : Str} {d : ℕ} (s : Str)
    → x ≢ b'*'
    → consume c x p ≡ some rest
    → Somewhere (x ∷ p) (d ∷ s)
    → Somewhere rest s
drop_item c {x} {p} {rest} {d} s n e (here m) =
    let (r, k, w) = item_inv n m in here (rw (consume-rest c d x p rest r e k) w)
drop_item c [] n e (later w) = absurd (not-Somewhere-nil n w)
drop_item c (d ∷ s) n e (later w) = later (drop_item c s n e w)

star→Somewhere : {x : ℕ} {s p : Str} → x ≡ b'*' → Matches s (x ∷ p) → Somewhere p s
star→Somewhere h (item n e d) = absurd (n h)
star→Somewhere h (leave e d) = here d
star→Somewhere h (take e d) = later (star→Somewhere h d)

Somewhere→star : {x : ℕ} {p s : Str} → x ≡ b'*' → Somewhere p s → Matches s (x ∷ p)
Somewhere→star h (here d) = leave h d
Somewhere→star h (later w) = take h (Somewhere→star h w)

drop_star : {x : ℕ} {p s : Str} → x ≡ b'*' → Somewhere (x ∷ p) s → Somewhere p s
drop_star h (here d) = star→Somewhere h d
drop_star h (later w) = later (drop_star h w)

Somewhere-skip_stars : (s p : Str) → Somewhere p s → Somewhere (skip_stars p) s
unfolding skip_stars
Somewhere-skip_stars s [] w = w
Somewhere-skip_stars s (x ∷ p) w = elim (Bool-cases (x == b'*')) [
  | inl e ↦ rw e (Somewhere-skip_stars s p (drop_star ((==_iff x b'*').0 e) w))
  | inr e ↦ rw e w
]

add_star : {x : ℕ} {p s : Str} → x ≡ b'*' → Somewhere p s → Somewhere (x ∷ p) s
add_star h (here d) = here (leave h d)
add_star h (later w) = later (add_star h w)

skip_stars-Somewhere : (s p : Str) → Somewhere (skip_stars p) s → Somewhere p s
unfolding skip_stars
skip_stars-Somewhere s [] w = w
skip_stars-Somewhere s (x ∷ p) w = elim (Bool-cases (x == b'*')) [
  | inl e ↦ add_star ((==_iff x b'*').0 e) (skip_stars-Somewhere s p (rw e at w))
  | inr e ↦ rw e at w
]

Somewhere-nil : (s : Str) → Somewhere [] s
Somewhere-nil [] = here both_end
Somewhere-nil (c ∷ s) = later (Somewhere-nil s)

-- What is behind a run of stars begins with no star, and is no longer than the run's pattern.
skip_stars_lem :
    (p q : Str) (y : ℕ)
    → skip_stars p ≡ y ∷ q
    → (y ≢ b'*') × (length (y ∷ q) ≤ length p) × (stars (y ∷ q) ≤ stars p)
unfolding skip_stars
skip_stars_lem [] q y h = ground arith
skip_stars_lem (x ∷ p) q y h = ground (arith, skip_stars_lem p q y)

Matches-nil : (p : Str) → (is_empty (skip_stars p) ≡ true) ↔ Matches [] p
unfolding skip_stars
Matches-nil [] = (λ _. both_end, λ _. refl)
Matches-nil (x ∷ p) = elim (Bool-cases (x == b'*')) [
  | inl e ↦
      (let h : x ≡ b'*' = (==_iff x b'*').0 e in
        rw e (λ k. leave h ((Matches-nil p).0 k), λ d. (Matches-nil p).1 (at_end h d)))
  | inr e ↦ rw e (λ k. cc, λ d. absurd (not-item-nil (λ h. cc (e, (==_iff x b'*').1 h)) d))
]
  where
    at_end : x ≡ b'*' → Matches [] (x ∷ p) → Matches [] p
    at_end h (leave _ d) = d

-- What the matcher's answer and its flag say of the string and the pattern.
abbrev Right : Str → Str → Bool × Bool → Type 0
Right s p (true, flag) = Matches s p
Right s p (false, true) = ¬ Somewhere p s
Right s p (false, false) = ¬ Matches s p

abbrev StarRight : Str → Str → Bool × Bool → Type 0
StarRight s p (true, flag) = Somewhere p s
StarRight s p (false, true) = ¬ Somewhere p s
StarRight s p (false, false) = ⊥

Somewhere-inv : {c : ℕ} {p s : Str} → Somewhere p (c ∷ s) → ¬ Matches (c ∷ s) p → Somewhere p s
Somewhere-inv (here d) n = absurd (n d)
Somewhere-inv (later w) n = w

star_step :
    (c : ℕ) (s p : Str) (r next : Bool × Bool)
    → Right (c ∷ s) p r
    → StarRight s p next
    → StarRight (c ∷ s) p (after_try r next)
star_step c s p (true, flag) next h k = here h
star_step c s p (false, true) next h k = h
star_step c s p (false, false) (true, flag) h w = later w
star_step c s p (false, false) (false, true) h n = λ w. n (Somewhere-inv w h)
star_step c s p (false, false) (false, false) h n = n

star_loop-StarRight :
    (s p : Str) (try_at : Str → Bool × Bool)
    → ¬ Somewhere p []
    → ((c : ℕ) (t : Str) → Right (c ∷ t) p (try_at (c ∷ t)))
    → StarRight s p (star_loop try_at s)
unfolding star_loop
star_loop-StarRight [] p try_at n right = n
star_loop-StarRight (c ∷ s) p try_at n right =
    star_step c s p (try_at (c ∷ s)) _ (right c s) (star_loop-StarRight s p try_at n right)

-- From the pattern behind a run of stars to the pattern with the run.
with_stars :
    {x : ℕ} (s p : Str) (r : Bool × Bool)
    → x ≡ b'*'
    → StarRight s (skip_stars p) r
    → Right s (x ∷ p) r
with_stars s p (true, flag) h w = Somewhere→star h (skip_stars-Somewhere s p w)
with_stars s p (false, true) h n = λ w. n (Somewhere-skip_stars s p (drop_star h w))
with_stars s p (false, false) h n = absurd n

-- From the rest of the pattern to the pattern whose item accepted `c`.
behind_item :
    (c x : ℕ) (s p rest : Str) (r : Bool × Bool)
    → x ≢ b'*'
    → consume c x p ≡ some rest
    → Right s rest r
    → Right (c ∷ s) (x ∷ p) r
behind_item c x s p rest (true, flag) n e w = item n e w
behind_item c x s p rest (false, true) n e h = λ w. h (drop_item c s n e w)
behind_item c x s p rest (false, false) n e h =
    λ d. let (r, k, w) = item_inv n d in h (rw (consume-rest c c x p rest r e k) w)

string_ran_out : (p : Str) (b : Bool) → is_empty (skip_stars p) ≡ b → Right [] p (b, false)
string_ran_out p true e = (Matches-nil p).0 e
string_ran_out p false e = λ d. cc (e, (Matches-nil p).1 d)

-- `go` is the matcher with one unit of fuel less.
module _ (fuel depth c x : ℕ) (s p : Str) where
  abbrev Go : Type 0
  Go =
      (d e : ℕ) (t q : Str)
      → length q ≤ fuel
      → stars q + e ≤ max_depth
      → Right (d ∷ t) q (match_loop fuel e (d ∷ t) q)

  star_arm-Right :
      (q : Str)
      → skip_stars p ≡ q
      → Go
      → x ≡ b'*'
      → length p ≤ fuel
      → stars p + 1 + depth ≤ max_depth
      → StarRight
          (c ∷ s)
          q
          (star_arm q (λ q t. at_depth (depth + 1) (match_loop fuel (depth + 1) t q)) (c ∷ s))
  star_arm-Right [] e go h f l = Somewhere-nil (c ∷ s)
  star_arm-Right (y ∷ q) e go h f l =
      let (n, shorter, fewer) = skip_stars_lem p q y e in
      star_loop-StarRight (c ∷ s) (y ∷ q) _ (not-Somewhere-nil n)
        λ d t. rw (shallow fewer) (go d (depth + 1) t (y ∷ q) (omega arith) (omega arith))
    where
      shallow : stars (y ∷ q) ≤ stars p → ltb max_depth (depth + 1) ≡ false
      shallow fewer = ground arith

  next_round-Right :
      (o : Option Str) (s : Str)
      → consume c x p ≡ o
      → Go
      → x ≢ b'*'
      → length p ≤ fuel
      → stars p + depth ≤ max_depth
      → Right (c ∷ s) (x ∷ p) (next_round o s (match_loop fuel depth))
  next_round-Right none s e go n f l = λ d. let (r, k, w) = item_inv n d in cc
  next_round-Right (some rest) [] e go n f l =
      behind_item c x [] p rest _ n e (string_ran_out rest _ refl)
  next_round-Right (some rest) (d ∷ t) e go n f l =
      let (shorter, fewer) = consume-shrinks c x p rest e in
      behind_item c x (d ∷ t) p rest _ n e (go d depth t rest (omega arith) (omega arith))

match_loop-Right :
    (fuel c depth : ℕ) (s p : Str)
    → length p ≤ fuel
    → stars p + depth ≤ max_depth
    → Right (c ∷ s) p (match_loop fuel depth (c ∷ s) p)
unfolding match_loop
match_loop-Right zero c depth s [] f l = λ d. elim d [ ]
match_loop-Right zero c depth s (x ∷ p) f l = absurd (omega arith)
match_loop-Right (suc fuel) c depth s [] f l = λ d. elim d [ ]
match_loop-Right (suc fuel) c depth s (x ∷ p) f l = elim (Bool-cases (x == b'*')) [
  | inl e ↦
      (let h : x ≡ b'*' = (==_iff x b'*').0 e in
        rw e (
          with_stars (c ∷ s) p _ h (
            star_arm-Right fuel depth c x s p _ refl (λ d e t q. match_loop-Right fuel d e t q) h
              (omega arith) (ground arith))))
  | inr e ↦ rw e (
      next_round-Right fuel depth c x s p _ s refl (λ d e t q. match_loop-Right fuel d e t q)
        (λ h. cc (e, (==_iff x b'*').1 h)) (omega arith) (ground arith))
]

Right-iff : (s p : Str) (r : Bool × Bool) → Right s p r → (r.0 ≡ true) ↔ Matches s p
Right-iff s p (true, flag) w = (λ _. w, λ _. refl)
Right-iff s p (false, true) n = (λ k. cc, λ w. absurd (n (here w)))
Right-iff s p (false, false) n = (λ k. cc, λ w. absurd (n w))

-- On a string with at least one byte, and a pattern with at most `max_depth` stars, the matcher
-- answers true exactly when the pattern, its stars standing for any sequence, matches the string:
-- neither the flag that stops the search nor the limit on the depth loses or adds a match.
pub string_match-Matches :
    (c : ℕ) (s p : Str) → stars p ≤ max_depth → (string_match (c ∷ s) p ≡ true) ↔ Matches (c ∷ s) p
unfolding string_match
string_match-Matches c s p h =
    Right-iff (c ∷ s) p _ (match_loop-Right (length p) c 0 s p (omega arith) (omega arith))
