-- ===== src/Resp2/Carried.antt =====
-- What the decoder of resp2.rs gives: values in the ranges that the wire has.
use thesaurus.Prelude.{
  length-take, ℕ, zero, suc, ◌+◌, ◌≤◌, ◌≡◌, refl, Bool, true, false, not, Bool-cases, inl, inr,
  Option, none, some, [], ◌∷◌, arith, Str, Result, ok, err, done, panicked, poisoned, ltb, leb,
  ◌==◌, if◌then◌else◌, ℤ, pos, negsuc, length, take, drop,
}
use thesaurus.Errors.{RespError, unexpected_eof, invalid_integer}
use thesaurus.Decimal.{max_i64, parse_i64}
use thesaurus.Decimal.RoundTrip.{IsI64}
use thesaurus.Decimal.Bounds.{IsI64OrNone, parse_i64-IsI64}
use thesaurus.Utf8.{is_utf8}
use thesaurus.Resp2.{
  RespValue, simple_string, simple_error, integer, bulk_string, null_array, array, Items, nil, cons,
  count,
}
use thesaurus.Resp2.Decode.{
  Decoded, read_line, trim_crlf, parse_length, isize_max, bulk_string_from_bytes, with_rest,
  read_bulk, by_length, integer_or, parse_bulk_string, and_then, decode_items, parse_array,
  dispatch, decode_line, decode_fuel, decode,
}

-- Integers and counts are those of an `i64`, a bulk string is UTF-8 and has its line end in a buffer.
abbrev mutual
  pub IsInRange : RespValue → Type 0
  IsInRange (simple_string s) = Unit
  IsInRange (simple_error s) = Unit
  IsInRange (integer z) = IsI64 z
  IsInRange (bulk_string none) = Unit
  IsInRange (bulk_string (some s)) = (length s + 2 ≤ isize_max) × (is_utf8 s ≡ true)
  IsInRange null_array = Unit
  IsInRange (array vs) = (count vs ≤ max_i64) × AreInRange vs

  pub AreInRange : Items → Type 0
  AreInRange nil = Unit
  AreInRange (cons v vs) = IsInRange v × AreInRange vs

-- What is decoded, if anything is, has the property `P`.
abbrev pub Gives {ℓ} : {A : Type 0} → (A → Type ℓ) → Decoded A → Type ℓ
Gives P (done (ok (a, s))) = P a
Gives P (done (err e)) = Unit
Gives P panicked = Unit
Gives P poisoned = Unit

module _ {A : Type 0} (P : A → Type 0) where
  if_Gives : (b : Bool) (x y : Decoded A) → Gives P x → Gives P y → Gives P (if b then x else y)
  if_Gives true x y h k = h
  if_Gives false x y h k = k

  and_then-Gives :
      {B : Type 0} (Q : B → Type 0) (r : Decoded A) (f : A → Str → Decoded B)
      → Gives P r
      → ((a : A) (s : Str) → P a → Gives Q (f a s))
      → Gives Q (and_then r f)
  and_then-Gives Q (done (ok (a, s))) f h k = k a s h
  and_then-Gives Q (done (err e)) f h k = tt
  and_then-Gives Q panicked f h k = tt
  and_then-Gives Q poisoned f h k = tt

-- a length that the wire has
abbrev HasI64Length : Result RespError (Option ℕ) → Type 0
HasI64Length (err e) = Unit
HasI64Length (ok none) = Unit
HasI64Length (ok (some n)) = n ≤ max_i64

parse_length-HasI64Length : (t : Str) → HasI64Length (parse_length t)
unfolding parse_length
parse_length-HasI64Length t =
    elim (parse_i64 t)
        as (λ o.
          IsI64OrNone o
          → HasI64Length (elim o [
            | none ↦ err (invalid_integer t)
            | some (pos n) ↦ ok (some n)
            | some (negsuc zero) ↦ ok none
            | some (negsuc (suc n)) ↦
                err (invalid_integer (thesaurus.Decimal.print_ℤ (negsuc (suc n))))
          ])) [
            | none ↦ λ h. tt
            | some (pos n) ↦ λ h. h
            | some (negsuc zero) ↦ λ h. tt
            | some (negsuc (suc n)) ↦ λ h. tt
          ]
      (parse_i64-IsI64 t)

by_length-IsInRange :
    (l : Result RespError (Option ℕ)) (null : Decoded RespValue) (read : ℕ → Decoded RespValue)
    → HasI64Length l
    → Gives IsInRange null
    → ((n : ℕ) → n ≤ max_i64 → Gives IsInRange (read n))
    → Gives IsInRange (by_length l null read)
by_length-IsInRange (err e) null read l h k = tt
by_length-IsInRange (ok none) null read l h k = h
by_length-IsInRange (ok (some n)) null read l h k = k n l

bulk_string_from_bytes-IsInRange :
    (n : ℕ) (bytes rest : Str)
    → n + 2 ≤ isize_max
    → Gives IsInRange (done (with_rest (bulk_string_from_bytes n bytes) rest))
unfolding bulk_string_from_bytes
bulk_string_from_bytes-IsInRange n bytes rest h = elim (Bool-cases (is_utf8 (take n bytes))) [
  | inl e ↦ rw e (omega (arith, length-take n bytes), e)
  | inr e ↦ rw e tt
]

read_bulk-IsInRange : (n : ℕ) (s : Str) → Gives IsInRange (read_bulk n s)
unfolding read_bulk
read_bulk-IsInRange n s = elim (Bool-cases (ltb isize_max (n + 2))) [
  | inl e ↦ rw e tt
  | inr e ↦ rw e (
      if_Gives IsInRange (ltb (length s) (n + 2)) (done (err unexpected_eof)) _ tt
        (bulk_string_from_bytes-IsInRange n (take (n + 2) s) (drop (n + 2) s) (ground arith)))
]

integer_or-IsInRange :
    (t s : Str) (o : Option ℤ) → IsI64OrNone o → Gives IsInRange (integer_or t o s)
integer_or-IsInRange t s none h = tt
integer_or-IsInRange t s (some z) h = h

-- `n` items
abbrev AreItems : ℕ → Items → Type 0
AreItems n vs = (count vs ≡ n) × AreInRange vs

module _ (one : Str → Decoded RespValue) (ranged : (s : Str) → Gives IsInRange (one s)) where
  decode_items-AreItems : (n : ℕ) (s : Str) → Gives (AreItems n) (decode_items n one s)
  unfolding decode_items
  decode_items-AreItems zero s = (refl, tt)
  decode_items-AreItems (suc n) s =
      and_then-Gives IsInRange (AreItems (suc n)) (one s) _ (ranged s) λ v s' h.
        and_then-Gives (AreItems n) (AreItems (suc n)) (decode_items n one s') _
          (decode_items-AreItems n s') λ vs s'' (c, k). (omega arith, (h, k))

  dispatch-IsInRange : (first : ℕ) (t s : Str) → Gives IsInRange (dispatch first t one s)
  unfolding dispatch parse_bulk_string parse_array
  dispatch-IsInRange first t s = if_Gives IsInRange (first == b'+') _ _ tt (
      if_Gives IsInRange (first == b'-') _ _ tt (
        if_Gives IsInRange (first == b':') _ _
          (integer_or-IsInRange t s (parse_i64 t) (parse_i64-IsI64 t))
          (if_Gives IsInRange (first == b'$') _ _ bulk
            (if_Gives IsInRange (first == b'*') _ _ items tt))))
    where
      bulk : Gives IsInRange (parse_bulk_string t s)
      bulk =
          by_length-IsInRange (parse_length t) (done (ok (bulk_string none, s))) _
            (parse_length-HasI64Length t) tt λ n l. read_bulk-IsInRange n s

      items : Gives IsInRange (parse_array t one s)
      items =
          by_length-IsInRange (parse_length t) (done (ok (null_array, s))) _
            (parse_length-HasI64Length t) tt
            λ n l.
              and_then-Gives (AreItems n) IsInRange (decode_items n one s) _
                (decode_items-AreItems n s) λ vs s' (c, k). (omega arith, k)

  decode_line-IsInRange : (line s : Str) → Gives IsInRange (decode_line line one s)
  unfolding decode_line
  decode_line-IsInRange [] s = tt
  decode_line-IsInRange (first ∷ t) s =
      if_Gives IsInRange (not (is_utf8 (first ∷ t))) _ _ tt (
        if_Gives IsInRange (leb 128 first) panicked _ tt (dispatch-IsInRange first (trim_crlf t) s))

decode_fuel-IsInRange : (fuel : ℕ) (s : Str) → Gives IsInRange (decode_fuel fuel s)
unfolding decode_fuel
decode_fuel-IsInRange zero s = tt
decode_fuel-IsInRange (suc fuel) s =
    decode_line-IsInRange (decode_fuel fuel) (decode_fuel-IsInRange fuel) (read_line s).0
      (read_line s).1

given :
    {A : Type 0} (P : A → Type 0) (r : Decoded A) (a : A) (s : Str)
    → r ≡ done (ok (a, s))
    → Gives P r
    → P a
given P (done (ok (b, t))) a s e h = let same : b ≡ a = cc in rw (← same) h
given P (done (err x)) a s e h = cc
given P panicked a s e h = cc
given P poisoned a s e h = cc

-- Every integer that is decoded is one of an `i64`, at any depth, so is the number of items of every
-- array, and every bulk string is UTF-8, of a size that a buffer can have with its line end.
pub decode-IsInRange : (s rest : Str) (v : RespValue) → decode s ≡ done (ok (v, rest)) → IsInRange v
unfolding decode
decode-IsInRange s rest v e =
    given IsInRange (decode s) v rest e (decode_fuel-IsInRange (length s) s)
