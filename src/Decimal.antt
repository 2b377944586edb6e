-- ===== src/Decimal.antt =====
-- Integers as text: `Display` of the integer types, `str::parse::<u8 | u64 | i64>` and
-- `u64::from_str_radix`, of the standard library, as the commands and the protocol use them.
pub mod Bounds
pub mod RoundTrip
pub mod Hexadecimal
pub mod Size
use thesaurus.Prelude.{
  ℕ, zero, suc, ◌+◌, ◌-◌, ◌*◌, ◌/◌, ◌%◌, ◌^◌, ◌&&◌, Option, none, some, [], ◌∷◌, Str, ltb, leb,
  ◌==◌, if◌then◌else◌, ℤ, pos, negsuc, sub_ℕ,
}

abbrev pub max_u64 : ℕ
max_u64 = 2 ^ 64 - 1

abbrev pub max_i64 : ℕ
max_i64 = 2 ^ 63 - 1

-- The digits of `n` before `out`. A round divides by ten, so `n` is fuel enough.
unfoldable pub print_loop : ℕ → ℕ → Str → Str
print_loop zero n out = (b'0' + n % 10) ∷ out
print_loop (suc fuel) n out =
    let more = print_loop fuel (n / 10) ((b'0' + n % 10) ∷ out) in
    if ltb n 10 then (b'0' + n % 10) ∷ out else more

unfoldable pub print : ℕ → Str
unfolding print_loop
print n = print_loop n n []

unfoldable pub print_ℤ : ℤ → Str
unfolding print
print_ℤ (pos n) = print n
print_ℤ (negsuc n) = b'-' ∷ print (suc n)

-- `char::to_digit`
unfoldable pub to_digit : ℕ → ℕ → Option ℕ
to_digit radix c =
    if leb b'0' c && leb c b'9'
    then some (c - b'0')
    else if radix == 16 && leb b'a' c && leb c b'f'
    then some (c - b'a' + 10)
    else if radix == 16 && leb b'A' c && leb c b'F'
    then some (c - b'A' + 10)
    else none

-- one step of the loop, `none` at a byte that is no digit and past `bound`
unfoldable pub push_digit : ℕ → ℕ → ℕ → ℕ → Option ℕ
unfolding to_digit
push_digit radix bound acc c = elim (to_digit radix c) [
  | none ↦ none
  | some d ↦ if leb (acc * radix + d) bound then some (acc * radix + d) else none
]

unfoldable pub scan : ℕ → ℕ → ℕ → Str → Option ℕ
unfolding push_digit
scan radix bound acc [] = some acc
scan radix bound acc (c ∷ s) = elim (push_digit radix bound acc c) [
  | none ↦ none
  | some acc' ↦ scan radix bound acc' s
]

-- the digits, of which there must be one
abbrev pub scan_digits : ℕ → ℕ → Str → Option ℕ
scan_digits radix bound [] = none
scan_digits radix bound (c ∷ s) = scan radix bound 0 (c ∷ s)

-- An unsigned integer up to `bound`; a plus sign may stand first.
unfoldable pub parse_unsigned : ℕ → ℕ → Str → Option ℕ
unfolding scan
parse_unsigned radix bound [] = none
parse_unsigned radix bound (c ∷ s) =
    if c == b'+' then scan_digits radix bound s else scan radix bound 0 (c ∷ s)

abbrev pub parse_u64 : Str → Option ℕ
parse_u64 = parse_unsigned 10 max_u64

abbrev pub to_pos : Option ℕ → Option ℤ
to_pos none = none
to_pos (some n) = some (pos n)

abbrev pub to_neg : Option ℕ → Option ℤ
to_neg none = none
to_neg (some zero) = some (pos 0)
to_neg (some (suc n)) = some (negsuc n)

unfoldable pub parse_i64 : Str → Option ℤ
unfolding scan
parse_i64 [] = none
parse_i64 (c ∷ s) =
    if c == b'-'
    then to_neg (scan_digits 10 (max_i64 + 1) s)
    else if c == b'+'
    then to_pos (scan_digits 10 max_i64 s)
    else to_pos (scan 10 max_i64 0 (c ∷ s))

-- `{:016x}` of a `u64`: sixteen digits, before `out`
abbrev pub hex_digit : ℕ → ℕ
hex_digit d = if ltb d 10 then b'0' + d else b'a' + d - 10

unfoldable pub print_hex : ℕ → ℕ → Str → Str
print_hex zero n out = out
print_hex (suc digits) n out = print_hex digits (n / 16) (hex_digit (n % 16) ∷ out)
