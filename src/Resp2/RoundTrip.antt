-- ===== src/Resp2/RoundTrip.antt =====
-- What the encoder of resp2.rs writes, its decoder reads back.
use mathlib.Core.List.{append_assoc}
use thesaurus.Prelude.{
  ℕ, zero, suc, ◌+◌, ◌≤◌, ◌≡◌, refl, ap, ◌∙◌, true, false, none, some, [], ◌∷◌, ◌++◌, arith, Str,
  ok, done, ltb, length, length-append, take, drop, ℤ, pos,
}
use thesaurus.Decimal.{max_i64, print, print_ℤ, parse_i64}
use thesaurus.Decimal.RoundTrip.{IsI64, parse_i64-print_ℤ}
use thesaurus.Utf8.{is_utf8}
use thesaurus.Resp2.{
  RespValue, simple_string, simple_error, integer, bulk_string, null_array, array, Items, nil, cons,
  count, crlf, encode, encode_items,
}
use thesaurus.Resp2.Decode.{
  Decoded, dispatch, parse_length, read_bulk, parse_bulk_string, parse_array, decode_items,
  decode_fuel, decode, isize_max,
}
use thesaurus.Resp2.Lines.{IsHeader, print-IsHeader, print_ℤ-IsHeader, decode_fuel-header}

-- What the protocol can carry: a simple string has no line feed, the texts are UTF-8 as every
-- `String` is, integers and lengths are in the range of `i64`.
abbrev mutual
  pub IsEncodable : RespValue → Type 0
  IsEncodable (simple_string s) = IsHeader s
  IsEncodable (simple_error s) = IsHeader s
  IsEncodable (integer z) = IsI64 z
  IsEncodable (bulk_string none) = Unit
  IsEncodable (bulk_string (some s)) = (length s + 2 ≤ isize_max) × (is_utf8 s ≡ true)
  IsEncodable null_array = Unit
  IsEncodable (array vs) = (count vs ≤ max_i64) × AreEncodable vs

  pub AreEncodable : Items → Type 0
  AreEncodable nil = Unit
  AreEncodable (cons v vs) = IsEncodable v × AreEncodable vs

parse_i64-print : (n : ℕ) → n ≤ max_i64 → parse_i64 (print n) ≡ some (pos n)
parse_i64-print n h = let e = parse_i64-print_ℤ (pos n) h in unfold print_ℤ in e

pub parse_length-print : (n : ℕ) → n ≤ max_i64 → parse_length (print n) ≡ ok (some n)
unfolding parse_length
parse_length-print n h = rw (parse_i64-print n h, parse_length)

take_of_length : (n : ℕ) (s t : Str) → n ≡ length s → take n (s ++ t) ≡ s
take_of_length zero [] t h = refl
take_of_length zero (c ∷ s) t h = absurd (omega arith)
take_of_length (suc n) [] t h = absurd (omega arith)
take_of_length (suc n) (c ∷ s) t h = ap (λ r. c ∷ r) (take_of_length n s t (omega arith))

drop_of_length : (n : ℕ) (s t : Str) → n ≡ length s → drop n (s ++ t) ≡ t
drop_of_length zero [] t h = refl
drop_of_length zero (c ∷ s) t h = absurd (omega arith)
drop_of_length (suc n) [] t h = absurd (omega arith)
drop_of_length (suc n) (c ∷ s) t h = drop_of_length n s t (omega arith)

read_bulk-append :
    (s rest : Str)
    → length s + 2 ≤ isize_max
    → is_utf8 s ≡ true
    → read_bulk (length s) (s ++ (crlf ++ rest)) ≡ done (ok (bulk_string (some s), rest))
unfolding read_bulk
read_bulk-append s rest h u = rw (fits, enough, taken, dropped, start, u)
  where
    both : s ++ (crlf ++ rest) ≡ (s ++ crlf) ++ rest
    both = simp append_assoc

    size : length s + 2 ≡ length (s ++ crlf)
    size = omega (arith, length-append s crlf)

    fits : ltb isize_max (length s + 2) ≡ false
    fits = ground arith

    enough : ltb (length (s ++ (crlf ++ rest))) (length s + 2) ≡ false
    enough = ground (arith, length-append s (crlf ++ rest))

    taken : take (length s + 2) (s ++ (crlf ++ rest)) ≡ s ++ crlf
    taken = rw both (take_of_length _ (s ++ crlf) rest size)

    dropped : drop (length s + 2) (s ++ (crlf ++ rest)) ≡ rest
    dropped = rw both (drop_of_length _ (s ++ crlf) rest size)

    start : take (length s) (s ++ crlf) ≡ s
    start = take_of_length (length s) s crlf refl

-- The decoder on the header line of each kind of value.
module _ (fuel : ℕ) (t rest : Str) (h : IsHeader t) where
  decode_simple_string :
      decode_fuel (suc fuel) (b'+' ∷ ((t ++ crlf) ++ rest)) ≡ done (ok (simple_string t, rest))
  decode_simple_string = rw append_assoc (
      decode_fuel-header fuel b'+' t rest (omega arith) (omega arith) h ∙ (unfold dispatch in refl))

  decode_simple_error :
      decode_fuel (suc fuel) (b'-' ∷ ((t ++ crlf) ++ rest)) ≡ done (ok (simple_error t, rest))
  decode_simple_error = rw append_assoc (
      decode_fuel-header fuel b'-' t rest (omega arith) (omega arith) h ∙ (unfold dispatch in refl))

decode_integer :
    (fuel : ℕ) (z : ℤ) (rest : Str)
    → IsI64 z
    → decode_fuel (suc fuel) (b':' ∷ ((print_ℤ z ++ crlf) ++ rest)) ≡ done (ok (integer z, rest))
unfolding dispatch
decode_integer fuel z rest h = rw append_assoc (
    decode_fuel-header fuel b':' (print_ℤ z) rest (omega arith) (omega arith) (print_ℤ-IsHeader z)
    ∙ rw (parse_i64-print_ℤ z h, dispatch))

dispatch-bulk_string :
    (n : ℕ) (decode_one : Str → Decoded RespValue) (s : Str)
    → n ≤ max_i64
    → dispatch b'$' (print n) decode_one s ≡ read_bulk n s
unfolding dispatch
dispatch-bulk_string n decode_one s h = rw (parse_length-print n h, parse_bulk_string)

decode_bulk_string :
    (fuel : ℕ) (s rest : Str)
    → length s + 2 ≤ isize_max
    → is_utf8 s ≡ true
    → decode_fuel (suc fuel) (encode (bulk_string (some s)) ++ rest)
      ≡ done (ok (bulk_string (some s), rest))
unfolding encode
decode_bulk_string fuel s rest h u = simp append_assoc (
    decode_fuel-header fuel b'$' (print (length s)) (s ++ (crlf ++ rest)) (omega arith)
      (omega arith) (print-IsHeader (length s))
    ∙ dispatch-bulk_string (length s) (decode_fuel fuel) _ (omega arith)
    ∙ read_bulk-append s rest h u)

decode_null_bulk_string :
    (fuel : ℕ) (rest : Str)
    → decode_fuel (suc fuel) (encode (bulk_string none) ++ rest)
      ≡ done (ok (bulk_string none, rest))
unfolding encode decode_fuel is_utf8 parse_i64
decode_null_bulk_string fuel rest = refl

decode_null_array :
    (fuel : ℕ) (rest : Str)
    → decode_fuel (suc fuel) (encode null_array ++ rest) ≡ done (ok (null_array, rest))
unfolding encode decode_fuel is_utf8 parse_i64
decode_null_array fuel rest = refl

-- An array is read back if its items are.
decode_array :
    (fuel n : ℕ) (vs : Items) (body rest : Str)
    → n ≤ max_i64
    → decode_items n (decode_fuel fuel) body ≡ done (ok (vs, rest))
    → decode_fuel (suc fuel) (b'*' ∷ (print n ++ (crlf ++ body))) ≡ done (ok (array vs, rest))
unfolding dispatch
decode_array fuel n vs body rest h e =
    decode_fuel-header fuel b'*' (print n) body (omega arith) (omega arith) (print-IsHeader n)
    ∙ rw (parse_length-print n h, parse_array, e)

-- Both clauses of the encoder for arrays write the count and the items.
pub encode-array :
    (vs : Items) → encode (array vs) ≡ b'*' ∷ (print (count vs) ++ (crlf ++ encode_items vs))
unfolding encode print
encode-array nil = refl
encode-array (cons v vs) = refl

length-encode-array : (vs : Items) → length (encode_items vs) + 1 ≤ length (encode (array vs))
length-encode-array vs = rw encode-array (
    omega (
      arith,
      length-append {0} (print (count vs)) (crlf ++ encode_items vs),
      length-append {0} crlf (encode_items vs),
    ))

encode-array-append :
    (vs : Items) (rest : Str)
    → encode (array vs) ++ rest ≡ b'*' ∷ (print (count vs) ++ (crlf ++ (encode_items vs ++ rest)))
encode-array-append vs rest = rw encode-array (simp append_assoc)

mutual
  unfolding encode decode_items

  pub decode_fuel-encode :
      (v : RespValue) (fuel : ℕ) (rest : Str)
      → IsEncodable v
      → length (encode v) ≤ fuel
      → decode_fuel fuel (encode v ++ rest) ≡ done (ok (v, rest))
  decode_fuel-encode (simple_string s) zero rest h l = absurd (omega arith)
  decode_fuel-encode (simple_string s) (suc fuel) rest h l = decode_simple_string fuel s rest h
  decode_fuel-encode (simple_error s) zero rest h l = absurd (omega arith)
  decode_fuel-encode (simple_error s) (suc fuel) rest h l = decode_simple_error fuel s rest h
  decode_fuel-encode (integer z) zero rest h l = absurd (omega arith)
  decode_fuel-encode (integer z) (suc fuel) rest h l = decode_integer fuel z rest h
  decode_fuel-encode (bulk_string none) zero rest h l = absurd (omega arith)
  decode_fuel-encode (bulk_string none) (suc fuel) rest h l = decode_null_bulk_string fuel rest
  decode_fuel-encode (bulk_string (some s)) zero rest h l = absurd (omega arith)
  decode_fuel-encode (bulk_string (some s)) (suc fuel) rest h l =
      decode_bulk_string fuel s rest h.0 h.1
  decode_fuel-encode null_array zero rest h l = absurd (omega arith)
  decode_fuel-encode null_array (suc fuel) rest h l = decode_null_array fuel rest
  decode_fuel-encode (array vs) zero rest h l = absurd (omega (arith, length-encode-array vs))
  decode_fuel-encode (array vs) (suc fuel) rest h l = rw (encode-array-append vs rest) (
      decode_array fuel (count vs) vs (encode_items vs ++ rest) rest h.0
        (decode_items-encode vs fuel rest h.1 (omega (arith, length-encode-array vs))))

  decode_items-encode :
      (vs : Items) (fuel : ℕ) (rest : Str)
      → AreEncodable vs
      → length (encode_items vs) ≤ fuel
      → decode_items (count vs) (decode_fuel fuel) (encode_items vs ++ rest) ≡ done (ok (vs, rest))
  decode_items-encode nil fuel rest h l = refl
  decode_items-encode (cons v vs) fuel rest h l =
      let both = length-append {0} (encode v) (encode_items vs) in
      let first = decode_fuel-encode v fuel (encode_items vs ++ rest) h.0 (omega (arith, both)) in
      let others = decode_items-encode vs fuel rest h.1 (omega (arith, both)) in
      rw (append_assoc, first, others)

-- The encoding of a value that the protocol can carry, followed by any bytes, decodes to the value
-- and leaves exactly those bytes.
pub decode-encode :
    (v : RespValue) (rest : Str) → IsEncodable v → decode (encode v ++ rest) ≡ done (ok (v, rest))
unfolding decode
decode-encode v rest h =
    decode_fuel-encode v (length (encode v ++ rest)) rest h
      (omega (arith, length-append {0} (encode v) rest))
