-- ===== src/Resp2/Lines.antt =====
-- The header line of a RESP2 value: how the decoder finds it and takes the line end off.
use thesaurus.Prelude.{ℕ, suc, ◌<◌, ◌≡◌, ◌≢◌, refl, true, [], ◌∷◌, ◌++◌, arith, Str, ℤ, pos, negsuc}
use thesaurus.Decimal.{print, print_ℤ}
use thesaurus.Decimal.RoundTrip.{IsDigits, print-IsDigits}
use thesaurus.Utf8.{is_utf8, is_utf8-append}
use thesaurus.Resp2.{RespValue, crlf}
use thesaurus.Resp2.Decode.{
  prepend, read_line, trim_crlf, decode_line, decode_fuel, dispatch, Decoded,
}

-- No byte is a line feed.
abbrev pub IsLine : Str → Type 0
IsLine [] = Unit
IsLine (c ∷ s) = (c ≢ b'\n') × IsLine s

read_line-append : (t rest : Str) → IsLine t → read_line (t ++ (crlf ++ rest)) ≡ (t ++ crlf, rest)
unfolding read_line
read_line-append [] rest h = refl
read_line-append (c ∷ t) rest h = ground (arith, read_line-append t rest)

prepend_line : (c : ℕ) (t : Str) → IsLine t → prepend c t ≡ c ∷ t
prepend_line c [] h = refl
prepend_line c (d ∷ []) h = ground arith
prepend_line c (d ∷ x ∷ t) h = refl

trim_crlf-append : (t : Str) → IsLine t → trim_crlf (t ++ crlf) ≡ t
unfolding trim_crlf
trim_crlf-append [] h = refl
trim_crlf-append (c ∷ t) h = rw (trim_crlf-append t h.1) (prepend_line c t h.1)

IsDigits-IsLine : (s : Str) → IsDigits s → IsLine s
IsDigits-IsLine [] h = tt
IsDigits-IsLine (c ∷ s) h = (omega arith, IsDigits-IsLine s h.2)

IsDigits-is_utf8 : (s : Str) → IsDigits s → is_utf8 s ≡ true
unfolding is_utf8
IsDigits-is_utf8 [] h = refl
IsDigits-is_utf8 (c ∷ s) h = ground (arith, IsDigits-is_utf8 s)

-- What may stand on the header line of a value.
abbrev pub IsHeader : Str → Type 0
IsHeader t = IsLine t × (is_utf8 t ≡ true)

pub print-IsHeader : (n : ℕ) → IsHeader (print n)
print-IsHeader n =
    (IsDigits-IsLine (print n) (print-IsDigits n), IsDigits-is_utf8 (print n) (print-IsDigits n))

pub print_ℤ-IsHeader : (z : ℤ) → IsHeader (print_ℤ z)
unfolding print_ℤ
print_ℤ-IsHeader (pos n) = print-IsHeader n
print_ℤ-IsHeader (negsuc n) = ((omega arith, (print-IsHeader (suc n)).0), minus)
  where
    minus : is_utf8 (b'-' ∷ print (suc n)) ≡ true
    minus =
        is_utf8-append (b'-' ∷ []) (print (suc n)) (unfold is_utf8 in refl)
          (print-IsHeader (suc n)).1

decode_line-header :
    (first : ℕ) (t : Str) (decode_one : Str → Decoded RespValue) (rest : Str)
    → first < 128
    → IsHeader t
    → decode_line (first ∷ (t ++ crlf)) decode_one rest ≡ dispatch first t decode_one rest
unfolding decode_line
decode_line-header first t decode_one rest ascii (line, text) =
    rw (valid, trim_crlf-append t line) (ground arith)
  where
    first_valid : is_utf8 (first ∷ []) ≡ true
    first_valid = unfold is_utf8 in ground arith

    valid : is_utf8 (first ∷ (t ++ crlf)) ≡ true
    valid =
        is_utf8-append (first ∷ []) (t ++ crlf) first_valid
          (is_utf8-append t crlf text (unfold is_utf8 in refl))

decode_fuel_step :
    (fuel : ℕ) (s : Str)
    → decode_fuel (suc fuel) s ≡ decode_line (read_line s).0 (decode_fuel fuel) (read_line s).1
unfolding decode_fuel
decode_fuel_step fuel s = refl

-- A value's header line, with its first byte and its line end, goes to the match on that byte.
pub decode_fuel-header :
    (fuel first : ℕ) (t rest : Str)
    → first ≢ b'\n'
    → first < 128
    → IsHeader t
    → decode_fuel (suc fuel) (first ∷ (t ++ (crlf ++ rest)))
      ≡ dispatch first t (decode_fuel fuel) rest
decode_fuel-header fuel first t rest n ascii header =
    rw (decode_fuel_step, read_line-append (first ∷ t) rest (n, header.0))
      (decode_line-header first t (decode_fuel fuel) rest ascii header)
