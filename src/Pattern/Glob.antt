-- ===== src/Pattern/Glob.antt =====
-- What a glob pattern means, and the proof that the matcher of pattern.rs decides it.
use thesaurus.Prelude.{
  ℕ, ◌+◌, ◌≤◌, ◌≡◌, ◌≢◌, refl, Bool, false, some, [], ◌∷◌, arith, Str, ◌==◌, ◌||◌, if◌then◌else◌,
  length,
}
use thesaurus.Pattern.{in_range, class_loop, consume}

-- The pattern's star stands for any sequence; any other item accepts one byte. No search order, no
-- flag and no depth are in it.
pub data Matches : Str → Str → Type 0 where
  both_end : Matches [] []
  item :
      {c x : ℕ} {s p rest : Str}
      → x ≢ b'*'
      → consume c x p ≡ some rest
      → Matches s rest
      → Matches (c ∷ s) (x ∷ p)
  leave : {x : ℕ} {s p : Str} → x ≡ b'*' → Matches s p → Matches s (x ∷ p)
  take : {c x : ℕ} {s p : Str} → x ≡ b'*' → Matches s (x ∷ p) → Matches (c ∷ s) (x ∷ p)

-- The number of star bytes, an upper bound of the depth that the search reaches.
abbrev pub stars : Str → ℕ
stars [] = 0
stars (x ∷ p) = stars p + (if x == b'*' then 1 else 0)

class_loop-shrinks :
    (c : ℕ) (p : Str) (m : Bool)
    → (length (class_loop c p m).1 ≤ length p) × (stars (class_loop c p m).1 ≤ stars p)
unfolding class_loop
class_loop-shrinks c [] m = omega arith
class_loop-shrinks c (a ∷ []) m = ground arith
class_loop-shrinks c (a ∷ b ∷ []) m = ground (arith, class_loop-shrinks c (b ∷ []) (m || a == c))
class_loop-shrinks c (a ∷ b ∷ d ∷ p) m = ground (
  arith,
  class_loop-shrinks c (d ∷ p) (m || b == c),
  class_loop-shrinks c p (m || in_range a d c),
  class_loop-shrinks c (b ∷ d ∷ p) (m || a == c),
)

-- What is left of the pattern behind a class does not depend on the byte that was read.
class_loop-rest : (c d : ℕ) (p : Str) (m n : Bool) → (class_loop c p m).1 ≡ (class_loop d p n).1
unfolding class_loop
class_loop-rest c d [] m n = refl
class_loop-rest c d (a ∷ []) m n = ground arith
class_loop-rest c d (a ∷ b ∷ []) m n =
    ground (arith, class_loop-rest c d (b ∷ []) (m || a == c) (n || a == d))
class_loop-rest c d (a ∷ b ∷ e ∷ p) m n = ground (
  arith,
  class_loop-rest c d (e ∷ p) (m || b == c) (n || b == d),
  class_loop-rest c d p (m || in_range a e c) (n || in_range a e d),
  class_loop-rest c d (b ∷ e ∷ p) (m || a == c) (n || a == d),
)

pub consume-shrinks :
    (c x : ℕ) (p rest : Str)
    → consume c x p ≡ some rest
    → (length rest ≤ length p) × (stars rest ≤ stars p)
unfolding consume
consume-shrinks c x [] rest h = ground arith
consume-shrinks c x (a ∷ p) rest h =
    ground (arith, class_loop-shrinks c p false, class_loop-shrinks c (a ∷ p) false)

pub consume-rest :
    (c d x : ℕ) (p q r : Str) → consume c x p ≡ some q → consume d x p ≡ some r → q ≡ r
unfolding consume
consume-rest c d x [] q r h k = ground arith
consume-rest c d x (a ∷ p) q r h k =
    ground (arith, class_loop-rest c d p false false, class_loop-rest c d (a ∷ p) false false)
