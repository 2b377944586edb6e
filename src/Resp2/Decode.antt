-- ===== src/Resp2/Decode.antt =====
-- The decoder of resp2.rs, `decode_impl!` and the macros under it; both of their expansions, with
-- and without `async`, are this one function. A reader is the list of the bytes still to come.
use thesaurus.Prelude.{
  ℕ, zero, suc, ◌+◌, ◌^◌, ◌-◌, Option, none, some, not, ◌&&◌, [], ◌∷◌, Str, Result, ok, err,
  Outcome, done, panicked, poisoned, ltb, leb, ◌==◌, if◌then◌else◌, ℤ, pos, negsuc, length, take,
  drop,
}
use thesaurus.Errors.{RespError, unknown_prefix, invalid_integer, invalid_utf8, unexpected_eof}
use thesaurus.Decimal.{parse_i64, print_ℤ}
use thesaurus.Utf8.{is_utf8}
use thesaurus.Resp2.{
  RespValue, simple_string, simple_error, integer, bulk_string, null_array, array, Items, nil, cons,
}

-- What a decoder returns with the bytes that it has not read; a panic ends the task.
abbrev pub Decoded : Type 0 → Type 0
Decoded A = Outcome (Result RespError (A × Str))

-- `reader.read_line`: the bytes up to the first line feed, or up to the end
unfoldable pub read_line : Str → Str × Str
read_line [] = ([], [])
read_line (c ∷ s) =
    let (line, rest) = read_line s in if c == b'\n' then (c ∷ [], s) else (c ∷ line, rest)

-- `trim_end_matches("\r\n")`
abbrev pub prepend : ℕ → Str → Str
prepend c [] = c ∷ []
prepend c (d ∷ []) = if c == b'\r' && d == b'\n' then [] else c ∷ d ∷ []
prepend c (d ∷ e ∷ s) = c ∷ d ∷ e ∷ s

unfoldable pub trim_crlf : Str → Str
trim_crlf [] = []
trim_crlf (c ∷ s) = prepend c (trim_crlf s)

-- `parse_length`; `none` stands for -1.
unfoldable pub parse_length : Str → Result RespError (Option ℕ)
parse_length text = elim (parse_i64 text) [
  | none ↦ err (invalid_integer text)
  | some (pos n) ↦ ok (some n)
  | some (negsuc zero) ↦ ok none
  | some (negsuc (suc n)) ↦ err (invalid_integer (print_ℤ (negsuc (suc n))))
]

abbrev pub isize_max : ℕ
isize_max = 2 ^ 63 - 1

unfoldable pub bulk_string_from_bytes : ℕ → Str → Result RespError RespValue
bulk_string_from_bytes n bytes =
    if is_utf8 (take n bytes) then ok (bulk_string (some (take n bytes))) else err invalid_utf8

abbrev pub with_rest {ℓ} : {A E : Type ℓ} → Result E A → Str → Result E (A × Str)
with_rest (ok a) s = ok (a, s)
with_rest (err e) s = err e

-- The buffer for `n` bytes and the line end, and `read_exact`. A buffer of more than `isize::MAX`
-- bytes panics.
unfoldable pub read_bulk : ℕ → Str → Decoded RespValue
unfolding bulk_string_from_bytes
read_bulk n s =
    if ltb isize_max (n + 2)
    then panicked
    else if ltb (length s) (n + 2)
    then done (err unexpected_eof)
    else done (with_rest (bulk_string_from_bytes n (take (n + 2) s)) (drop (n + 2) s))

-- the match on a length; `null` is for -1
abbrev pub by_length :
    Result RespError (Option ℕ) → Decoded RespValue → (ℕ → Decoded RespValue) → Decoded RespValue
by_length (err e) null read = done (err e)
by_length (ok none) null read = null
by_length (ok (some n)) null read = read n

unfoldable pub parse_bulk_string : Str → Str → Decoded RespValue
unfolding parse_length read_bulk
parse_bulk_string text s =
    by_length (parse_length text) (done (ok (bulk_string none, s))) λ n. read_bulk n s

-- `?` on a decoder's result
abbrev pub and_then {ℓ} :
    {A B E : Type ℓ}
    → Outcome (Result E (A × Str))
    → (A → Str → Outcome (Result E (B × Str)))
    → Outcome (Result E (B × Str))
and_then (done (ok (a, s))) f = f a s
and_then (done (err e)) f = done (err e)
and_then panicked f = panicked
and_then poisoned f = poisoned

-- `for _ in 0..length_value`, where `decode_one` is the recursive call of the decoder
unfoldable pub decode_items : ℕ → (Str → Decoded RespValue) → Str → Decoded Items
decode_items zero decode_one s = done (ok (nil, s))
decode_items (suc n) decode_one s =
    and_then (decode_one s)
      λ v s'. and_then (decode_items n decode_one s') λ vs s''. done (ok (cons v vs, s''))

unfoldable pub parse_array : Str → (Str → Decoded RespValue) → Str → Decoded RespValue
unfolding parse_length decode_items
parse_array text decode_one s =
    by_length (parse_length text) (done (ok (null_array, s)))
      λ n. and_then (decode_items n decode_one s) λ vs s'. done (ok (array vs, s'))

-- `:` and what `parse` makes of the text behind it
abbrev pub integer_or : Str → Option ℤ → Str → Decoded RespValue
integer_or text none s = done (err (invalid_integer text))
integer_or text (some n) s = done (ok (integer n, s))

-- the match on the first byte
unfoldable pub dispatch : ℕ → Str → (Str → Decoded RespValue) → Str → Decoded RespValue
unfolding parse_bulk_string parse_array
dispatch first text decode_one s =
    if first == b'+'
    then done (ok (simple_string text, s))
    else if first == b'-'
    then done (ok (simple_error text, s))
    else if first == b':'
    then integer_or text (parse_i64 text) s
    else if first == b'$'
    then parse_bulk_string text s
    else if first == b'*'
    then parse_array text decode_one s
    else done (err (unknown_prefix first))

-- A line that is no UTF-8 is an error of `read_line`. The slice `line[1..]` of `parse_header` panics
-- where the first character has more than one byte.
unfoldable pub decode_line : Str → (Str → Decoded RespValue) → Str → Decoded RespValue
decode_line [] decode_one s = done (err unexpected_eof)
decode_line (first ∷ text) decode_one s =
    if not (is_utf8 (first ∷ text))
    then done (err unexpected_eof)
    else if leb 128 first
    then panicked
    else dispatch first (trim_crlf text) decode_one s

-- A value nested in another one comes behind a line of it, so the number of bytes is fuel enough.
unfoldable pub decode_fuel : ℕ → Str → Decoded RespValue
unfolding decode_line read_line dispatch trim_crlf
decode_fuel zero s = done (err unexpected_eof)
decode_fuel (suc fuel) s =
    let (line, rest) = read_line s in decode_line line (decode_fuel fuel) rest

unfoldable pub decode : Str → Decoded RespValue
unfolding decode_fuel
decode s = decode_fuel (length s) s
