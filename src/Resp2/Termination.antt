-- ===== src/Resp2/Termination.antt =====
-- The decoder of resp2.rs ends: how much it reads, and that the bytes are fuel enough for it.
use thesaurus.Prelude.{
  ℕ, zero, suc, ◌+◌, ◌≤◌, ◌<◌, ◌≡◌, refl, Bool, true, false, not, Option, ℤ, none, some, [], ◌∷◌,
  arith, Str, Result, ok, err, done, panicked, poisoned, ltb, leb, ◌==◌, if◌then◌else◌, length,
  length-drop, take, drop,
}
use thesaurus.Errors.{RespError, unexpected_eof}
use thesaurus.Decimal.{parse_i64}
use thesaurus.Utf8.{is_utf8}
use thesaurus.Resp2.{RespValue, bulk_string, null_array}
use thesaurus.Resp2.Decode.{
  Decoded, read_line, trim_crlf, parse_length, isize_max, bulk_string_from_bytes, with_rest,
  read_bulk, by_length, integer_or, parse_bulk_string, and_then, decode_items, parse_array,
  dispatch, decode_line, decode_fuel, decode,
}

-- If a value is decoded, at most `n` bytes are left.
abbrev pub LeavesAtMost : {A : Type 0} → ℕ → Decoded A → Type 0
LeavesAtMost n (done (ok (a, s))) = length s ≤ n
LeavesAtMost n (done (err e)) = Unit
LeavesAtMost n panicked = Unit
LeavesAtMost n poisoned = Unit

pub weaken : {A : Type 0} (m n : ℕ) (r : Decoded A) → m ≤ n → LeavesAtMost m r → LeavesAtMost n r
weaken m n (done (ok (a, s))) l h = omega arith
weaken m n (done (err e)) l h = tt
weaken m n panicked l h = tt
weaken m n poisoned l h = tt

if_LeavesAtMost :
    {A : Type 0} (n : ℕ) (b : Bool) (x y : Decoded A)
    → LeavesAtMost n x
    → LeavesAtMost n y
    → LeavesAtMost n (if b then x else y)
if_LeavesAtMost n true x y h k = h
if_LeavesAtMost n false x y h k = k

and_then-LeavesAtMost :
    {A B : Type 0} (n : ℕ) (r : Decoded A) (f : A → Str → Decoded B)
    → LeavesAtMost n r
    → ((a : A) (s : Str) → length s ≤ n → LeavesAtMost n (f a s))
    → LeavesAtMost n (and_then r f)
and_then-LeavesAtMost n (done (ok (a, s))) f h k = k a s h
and_then-LeavesAtMost n (done (err e)) f h k = tt
and_then-LeavesAtMost n panicked f h k = tt
and_then-LeavesAtMost n poisoned f h k = tt

and_then_congruent :
    {A B : Type 0} (n : ℕ) (r : Decoded A) (f g : A → Str → Decoded B)
    → LeavesAtMost n r
    → ((a : A) (s : Str) → length s ≤ n → f a s ≡ g a s)
    → and_then r f ≡ and_then r g
and_then_congruent n (done (ok (a, s))) f g h k = k a s h
and_then_congruent n (done (err e)) f g h k = refl
and_then_congruent n panicked f g h k = refl
and_then_congruent n poisoned f g h k = refl

with_rest-LeavesAtMost :
    (n : ℕ) (r : Result RespError RespValue) (s : Str)
    → length s ≤ n
    → LeavesAtMost n (done (with_rest r s))
with_rest-LeavesAtMost n (ok v) s h = h
with_rest-LeavesAtMost n (err e) s h = tt

read_bulk-LeavesAtMost : (n : ℕ) (s : Str) → LeavesAtMost (length s) (read_bulk n s)
unfolding read_bulk
read_bulk-LeavesAtMost n s = if_LeavesAtMost (length s) (ltb isize_max (n + 2)) panicked _ tt (
    if_LeavesAtMost (length s) (ltb (length s) (n + 2)) (done (err unexpected_eof)) _ tt (
      with_rest-LeavesAtMost (length s) (bulk_string_from_bytes n (take (n + 2) s)) (drop (n + 2) s)
        (omega (arith, length-drop (n + 2) s))))

by_length-LeavesAtMost :
    (n : ℕ) (l : Result RespError (Option ℕ)) (null : Decoded RespValue)
    (read : ℕ → Decoded RespValue)
    → LeavesAtMost n null
    → ((k : ℕ) → LeavesAtMost n (read k))
    → LeavesAtMost n (by_length l null read)
by_length-LeavesAtMost n (err e) null read h k = tt
by_length-LeavesAtMost n (ok none) null read h k = h
by_length-LeavesAtMost n (ok (some m)) null read h k = k m

integer_or-LeavesAtMost : (t s : Str) (o : Option ℤ) → LeavesAtMost (length s) (integer_or t o s)
integer_or-LeavesAtMost t s none = tt
integer_or-LeavesAtMost t s (some n) = omega arith

read_line_size : (s : Str) → length (read_line s).0 + length (read_line s).1 ≡ length s
unfolding read_line
read_line_size [] = refl
read_line_size (c ∷ s) = ground (arith, read_line_size s)

-- a decoder that only reads
abbrev pub Reads : (Str → Decoded RespValue) → Type 0
Reads one = (s : Str) → LeavesAtMost (length s) (one s)

module _ (one : Str → Decoded RespValue) (reads : Reads one) where
  decode_items-LeavesAtMost :
      (k n : ℕ) (s : Str) → length s ≤ n → LeavesAtMost n (decode_items k one s)
  unfolding decode_items
  decode_items-LeavesAtMost zero n s h = h
  decode_items-LeavesAtMost (suc k) n s h =
      and_then-LeavesAtMost n (one s) _ (weaken (length s) n (one s) h (reads s)) λ v s' l.
        and_then-LeavesAtMost n (decode_items k one s') _ (decode_items-LeavesAtMost k n s' l)
          λ vs s'' l'. l'

  parse_array-LeavesAtMost : (t s : Str) → LeavesAtMost (length s) (parse_array t one s)
  unfolding parse_array
  parse_array-LeavesAtMost t s =
      by_length-LeavesAtMost (length s) (parse_length t) (done (ok (null_array, s))) _ (omega arith)
        λ k.
          and_then-LeavesAtMost (length s) (decode_items k one s) _
            (decode_items-LeavesAtMost k (length s) s (omega arith)) λ vs s' l. l

  dispatch-LeavesAtMost : (first : ℕ) (t s : Str) → LeavesAtMost (length s) (dispatch first t one s)
  unfolding dispatch
  dispatch-LeavesAtMost first t s = if_LeavesAtMost (length s) (first == b'+') _ _ (omega arith) (
      if_LeavesAtMost (length s) (first == b'-') _ _ (omega arith) (
        if_LeavesAtMost (length s) (first == b':') _ _ (integer_or-LeavesAtMost t s (parse_i64 t)) (
          if_LeavesAtMost (length s) (first == b'$') _ _ (parse_bulk_string-LeavesAtMost t s)
            (if_LeavesAtMost (length s) (first == b'*') _ _ (parse_array-LeavesAtMost t s) tt))))
    where
      parse_bulk_string-LeavesAtMost : (t s : Str) → LeavesAtMost (length s) (parse_bulk_string t s)
      parse_bulk_string-LeavesAtMost t s =
          unfold parse_bulk_string in
          by_length-LeavesAtMost (length s) (parse_length t) (done (ok (bulk_string none, s))) _
            (omega arith) λ n. read_bulk-LeavesAtMost n s

  decode_line-LeavesAtMost : (line s : Str) → LeavesAtMost (length s) (decode_line line one s)
  unfolding decode_line
  decode_line-LeavesAtMost [] s = tt
  decode_line-LeavesAtMost (first ∷ t) s =
      if_LeavesAtMost (length s) (not (is_utf8 (first ∷ t))) _ _ tt (
        if_LeavesAtMost (length s) (leb 128 first) panicked _ tt
          (dispatch-LeavesAtMost first (trim_crlf t) s))

decode_fuel-Reads : (fuel : ℕ) → Reads (decode_fuel fuel)
unfolding decode_fuel
decode_fuel-Reads zero s = tt
decode_fuel-Reads (suc fuel) s =
    weaken (length (read_line s).1) (length s) _ (omega (arith, read_line_size s)) (
      decode_line-LeavesAtMost (decode_fuel fuel) (decode_fuel-Reads fuel) (read_line s).0
        (read_line s).1)

by_length_congruent :
    (l : Result RespError (Option ℕ)) (null : Decoded RespValue) (f g : ℕ → Decoded RespValue)
    → ((k : ℕ) → f k ≡ g k)
    → by_length l null f ≡ by_length l null g
by_length_congruent (err e) null f g h = refl
by_length_congruent (ok none) null f g h = refl
by_length_congruent (ok (some n)) null f g h = h n

-- Two decoders that agree on what is not longer than `n` are the same for the values inside.
module _ (n : ℕ) (one two : Str → Decoded RespValue) (reads : Reads one)
    (agree : (s : Str) → length s ≤ n → one s ≡ two s) where
  decode_items_congruent :
      (k : ℕ) (s : Str) → length s ≤ n → decode_items k one s ≡ decode_items k two s
  unfolding decode_items
  decode_items_congruent zero s h = refl
  decode_items_congruent (suc k) s h = rw (← agree s h) (
      and_then_congruent n (one s) _ _ (weaken (length s) n (one s) h (reads s))
        λ v s' l. rw (← decode_items_congruent k s' l) refl)

  dispatch_congruent :
      (first : ℕ) (t s : Str) → length s ≤ n → dispatch first t one s ≡ dispatch first t two s
  unfolding dispatch
  dispatch_congruent first t s h = rw same refl
    where
      same : parse_array t one s ≡ parse_array t two s
      same =
          unfold parse_array in
          by_length_congruent (parse_length t) (done (ok (null_array, s))) _ _
            λ k. rw (decode_items_congruent k s h) refl

  decode_line_congruent :
      (line s : Str) → length s ≤ n → decode_line line one s ≡ decode_line line two s
  unfolding decode_line
  decode_line_congruent [] s h = refl
  decode_line_congruent (first ∷ t) s h = rw (dispatch_congruent first (trim_crlf t) s h) refl

read_line_shorter : (c : ℕ) (s : Str) → length (read_line (c ∷ s)).1 ≤ length s
unfolding read_line
read_line_shorter c s = ground (arith, read_line_size s)

decode_fuel_congruent :
    (f g : ℕ) (s : Str) → length s ≤ f → length s ≤ g → decode_fuel f s ≡ decode_fuel g s
unfolding decode_fuel
decode_fuel_congruent zero zero [] h k = refl
decode_fuel_congruent zero (suc g) [] h k = refl
decode_fuel_congruent (suc f) zero [] h k = refl
decode_fuel_congruent (suc f) (suc g) [] h k = refl
decode_fuel_congruent zero g (c ∷ s) h k = absurd (omega arith)
decode_fuel_congruent f zero (c ∷ s) h k = absurd (omega arith)
decode_fuel_congruent (suc f) (suc g) (c ∷ s) h k =
    decode_line_congruent (length s) (decode_fuel f) (decode_fuel g) (decode_fuel-Reads f)
      (λ t l. decode_fuel_congruent f g t (omega arith) (omega arith)) (read_line (c ∷ s)).0
      (read_line (c ∷ s)).1 (read_line_shorter c s)

-- A decoded value has taken a byte at least.
abbrev pub TakesSome : {A : Type 0} → Str → Decoded A → Type 0
TakesSome s (done (ok (a, rest))) = length rest < length s
TakesSome s (done (err e)) = Unit
TakesSome s panicked = Unit
TakesSome s poisoned = Unit

takes_some :
    {A : Type 0} (c : ℕ) (s : Str) (r : Decoded A) → LeavesAtMost (length s) r → TakesSome (c ∷ s) r
takes_some c s (done (ok (a, rest))) h = omega arith
takes_some c s (done (err e)) h = tt
takes_some c s panicked h = tt
takes_some c s poisoned h = tt

pub decode-LeavesAtMost : (c : ℕ) (s : Str) → LeavesAtMost (length s) (decode (c ∷ s))
unfolding decode decode_fuel
decode-LeavesAtMost c s =
    weaken (length (read_line (c ∷ s)).1) (length s) _ (read_line_shorter c s) (
      decode_line-LeavesAtMost (decode_fuel (length s)) (decode_fuel-Reads (length s))
        (read_line (c ∷ s)).0 (read_line (c ∷ s)).1)

decode-TakesSome : (s : Str) → TakesSome s (decode s)
decode-TakesSome [] = unfold decode in tt
decode-TakesSome (c ∷ s) = takes_some c s (decode (c ∷ s)) (decode-LeavesAtMost c s)

-- The decoder ends: with as much fuel as there are bytes, or more, it gives the same result, so it
-- never runs out of it; and a value that it decodes has taken a byte at least, so a loop that decodes
-- value after value ends too.
pub decode_fuel_lem :
    (fuel : ℕ) (s : Str)
    → length s ≤ fuel
    → (decode_fuel fuel s ≡ decode s) × TakesSome s (decode s)
decode_fuel_lem fuel s h =
    (unfold decode in decode_fuel_congruent fuel (length s) s h (omega arith), decode-TakesSome s)
