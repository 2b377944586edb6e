-- ===== src/Decimal/Size.antt =====
-- How long a printed number is.
use thesaurus.Prelude.{ℕ, zero, suc, ◌+◌, ◌*◌, ◌/◌, ◌%◌, ◌≤◌, ◌<◌, [], ◌∷◌, arith, Str, length}
use thesaurus.Decimal.{max_u64, print_loop, print}

-- `ten k` is the least number that needs more than `k` digits.
abbrev ten : ℕ → ℕ
ten zero = 1
ten (suc k) = ten k * 10

print_loop_size :
    (k fuel n : ℕ) (out : Str)
    → n < ten (suc k)
    → length (print_loop fuel n out) ≤ length out + suc k
unfolding print_loop
print_loop_size k zero n out h = ground arith
print_loop_size zero (suc fuel) n out h = ground arith
print_loop_size (suc k) (suc fuel) n out h =
    ground (arith, print_loop_size k fuel (n / 10) ((b'0' + n % 10) ∷ out))

-- A `u64` is printed in at most twenty digits.
pub length-print : (n : ℕ) → n ≤ max_u64 → length (print n) ≤ 20
unfolding print
length-print n h = omega (arith, print_loop_size 19 n n [] (omega arith))
