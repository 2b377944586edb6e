-- ===== src/Decimal/Hexadecimal.antt =====
-- A digest, printed in hexadecimal, is read back.
use thesaurus.Prelude.{
  ℕ, zero, suc, ◌+◌, ◌*◌, ◌/◌, ◌%◌, ◌≤◌, ◌<◌, ◌≡◌, refl, ◌∙◌, some, [], ◌∷◌, arith, Str,
}
use thesaurus.Decimal.{max_u64, hex_digit, print_hex, push_digit, scan, parse_unsigned}

-- a number of at most so many digits
abbrev HasDigits : ℕ → ℕ → Type 0
HasDigits zero n = n ≡ 0
HasDigits (suc digits) n = HasDigits digits (n / 16)

push_digit-hex_digit :
    (bound acc d : ℕ)
    → d < 16
    → acc * 16 + d ≤ bound
    → push_digit 16 bound acc (hex_digit d) ≡ some (acc * 16 + d)
unfolding push_digit
push_digit-hex_digit bound acc d h k = ground arith

scan-print_hex :
    (digits n bound : ℕ) (out : Str)
    → HasDigits digits n
    → n ≤ bound
    → scan 16 bound 0 (print_hex digits n out) ≡ scan 16 bound n out
unfolding scan print_hex
scan-print_hex zero n bound out h k = rw h
scan-print_hex (suc digits) n bound out h k =
    scan-print_hex digits (n / 16) bound (hex_digit (n % 16) ∷ out) h (omega arith)
    ∙ ground (arith, push_digit-hex_digit bound (n / 16) (n % 16))

u64-HasDigits : (n : ℕ) → n ≤ max_u64 → HasDigits 16 n
u64-HasDigits n h = omega arith

print_hex-first :
    (digits n : ℕ) (out : Str)
    → parse_unsigned 16 max_u64 (print_hex (suc digits) n out)
      ≡ scan 16 max_u64 0 (print_hex (suc digits) n out)
unfolding parse_unsigned print_hex
print_hex-first zero n out = ground arith
print_hex-first (suc digits) n out = print_hex-first digits (n / 16) (hex_digit (n % 16) ∷ out)

-- A `u64` is read back from the sixteen digits that DIGEST replies with.
pub parse_unsigned-print_hex :
    (n : ℕ) → n ≤ max_u64 → parse_unsigned 16 max_u64 (print_hex 16 n []) ≡ some n
parse_unsigned-print_hex n h =
    print_hex-first 15 n []
    ∙ scan-print_hex 16 n max_u64 [] (u64-HasDigits n h) h
    ∙ (unfold scan in refl)
