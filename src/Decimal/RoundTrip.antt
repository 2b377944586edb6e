-- ===== src/Decimal/RoundTrip.antt =====
-- Printed integers are read back.
use thesaurus.Prelude.{
  ℕ, zero, suc, ◌+◌, ◌*◌, ◌/◌, ◌%◌, ◌≤◌, ◌<◌, ◌≡◌, refl, ap, ◌∙◌, ◌≢◌, some, [], ◌∷◌, arith, Str, ℤ,
  pos, negsuc,
}
use thesaurus.Decimal.{
  max_i64, print_loop, print, print_ℤ, push_digit, scan, scan_digits, parse_unsigned, parse_i64,
  to_pos, to_neg,
}

push_digit_lem :
    (bound acc d : ℕ)
    → d < 10
    → acc * 10 + d ≤ bound
    → push_digit 10 bound acc (b'0' + d) ≡ some (acc * 10 + d)
unfolding push_digit
push_digit_lem bound acc d h k = ground arith

scan-print_loop :
    (fuel n bound : ℕ) (out : Str)
    → n ≤ fuel
    → n ≤ bound
    → scan 10 bound 0 (print_loop fuel n out) ≡ scan 10 bound n out
unfolding scan print_loop
scan-print_loop zero n bound out h k = ground (arith, push_digit_lem bound 0 (n % 10))
scan-print_loop (suc fuel) n bound out h k = ground (
  arith,
  push_digit_lem bound 0 (n % 10),
  push_digit_lem bound (n / 10) (n % 10),
  scan-print_loop fuel (n / 10) bound ((b'0' + n % 10) ∷ out),
)

-- A text whose first byte is a digit; all its bytes are.
abbrev pub IsDigits : Str → Type 0
IsDigits [] = Unit
IsDigits (c ∷ s) = (b'0' ≤ c) × (c ≤ b'9') × IsDigits s

print_loop-IsDigits : (fuel n : ℕ) (out : Str) → IsDigits out → IsDigits (print_loop fuel n out)
unfolding print_loop
print_loop-IsDigits zero n out h = (omega arith, omega arith, h)
print_loop-IsDigits (suc fuel) n out h =
    ground (arith, print_loop-IsDigits fuel (n / 10) ((b'0' + n % 10) ∷ out))

pub print-IsDigits : (n : ℕ) → IsDigits (print n)
unfolding print
print-IsDigits n = print_loop-IsDigits n n [] tt

print_loop-ne-nil : (fuel n : ℕ) (out : Str) → print_loop fuel n out ≢ []
unfolding print_loop
print_loop-ne-nil zero n out h = cc
print_loop-ne-nil (suc fuel) n out h =
    ground (arith, print_loop-ne-nil fuel (n / 10) ((b'0' + n % 10) ∷ out))

print-ne-nil : (n : ℕ) → print n ≢ []
unfolding print
print-ne-nil n = print_loop-ne-nil n n []

scan-print : (bound n : ℕ) → n ≤ bound → scan 10 bound 0 (print n) ≡ some n
unfolding print scan
scan-print bound n h = scan-print_loop n n bound [] (omega arith) h

parse_unsigned_digits :
    (bound : ℕ) (s : Str) → s ≢ [] → IsDigits s → parse_unsigned 10 bound s ≡ scan 10 bound 0 s
unfolding parse_unsigned
parse_unsigned_digits bound [] n h = absurd (n refl)
parse_unsigned_digits bound (c ∷ s) n h = ground arith

-- An unsigned integer in range is read back from its decimal print.
pub parse_unsigned-print : (bound n : ℕ) → n ≤ bound → parse_unsigned 10 bound (print n) ≡ some n
parse_unsigned-print bound n h =
    parse_unsigned_digits bound (print n) (print-ne-nil n) (print-IsDigits n) ∙ scan-print bound n h

scan_digits_lem : (bound : ℕ) (s : Str) → s ≢ [] → scan_digits 10 bound s ≡ scan 10 bound 0 s
scan_digits_lem bound [] n = absurd (n refl)
scan_digits_lem bound (c ∷ s) n = refl

parse_i64_digits : (s : Str) → s ≢ [] → IsDigits s → parse_i64 s ≡ to_pos (scan 10 max_i64 0 s)
unfolding parse_i64
parse_i64_digits [] n h = absurd (n refl)
parse_i64_digits (c ∷ s) n h = ground arith

-- The values of an `i64`.
abbrev pub IsI64 : ℤ → Type 0
IsI64 (pos n) = n ≤ max_i64
IsI64 (negsuc n) = n ≤ max_i64

-- An `i64` is read back from its decimal print.
pub parse_i64-print_ℤ : (z : ℤ) → IsI64 z → parse_i64 (print_ℤ z) ≡ some z
unfolding print_ℤ
parse_i64-print_ℤ (pos n) h =
    parse_i64_digits (print n) (print-ne-nil n) (print-IsDigits n)
    ∙ ap to_pos (scan-print max_i64 n h)
parse_i64-print_ℤ (negsuc n) h =
    unfold parse_i64 in
    ap to_neg (
      scan_digits_lem (max_i64 + 1) (print (suc n)) (print-ne-nil (suc n))
      ∙ scan-print (max_i64 + 1) (suc n) (omega arith))
