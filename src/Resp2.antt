-- ===== src/Resp2.antt =====
-- crates/thesaurus/src/resp2.rs, the part that is not the test module: RESP2 values, and their
-- encoder. Child modules have the decoder and the round trip.
pub mod Carried
pub mod Decode
pub mod Lines
pub mod RoundTrip
pub mod Termination
pub mod Tests
use thesaurus.Prelude.{ℕ, zero, suc, Option, none, some, List, [], ◌∷◌, ◌++◌, Str, codes, ℤ, length}
use thesaurus.Decimal.{print, print_ℤ}

mutual
  -- `RespValue`; `Array(None)` is `null_array`.
  pub data RespValue : Type 0 where
    simple_string : Str → RespValue
    simple_error : Str → RespValue
    integer : ℤ → RespValue
    bulk_string : Option Str → RespValue
    null_array : RespValue
    array : Items → RespValue

  -- `Vec<RespValue>`
  pub data Items : Type 0 where
    nil : Items
    cons : RespValue → Items → Items

-- `items.len()`
abbrev pub count : Items → ℕ
count nil = 0
count (cons v vs) = suc (count vs)

abbrev pub crlf : Str
crlf = b'\r' ∷ b'\n' ∷ []

unfoldable pub encode_bulk_string : Option Str → Str
encode_bulk_string (some s) = b'$' ∷ (print (length s) ++ (crlf ++ (s ++ crlf)))
encode_bulk_string none = b'$' ∷ b'-' ∷ b'1' ∷ crlf

unfoldable mutual
  unfolding encode_bulk_string

  pub encode : RespValue → Str
  encode (simple_string s) = b'+' ∷ (s ++ crlf)
  encode (simple_error s) = b'-' ∷ (s ++ crlf)
  encode (integer n) = b':' ∷ (print_ℤ n ++ crlf)
  encode (bulk_string s) = encode_bulk_string s
  encode null_array = b'*' ∷ b'-' ∷ b'1' ∷ crlf
  encode (array nil) = b'*' ∷ b'0' ∷ crlf
  encode (array (cons v vs)) =
      b'*' ∷ (print (suc (count vs)) ++ (crlf ++ (encode v ++ encode_items vs)))

  -- the loop of `encode_array`
  pub encode_items : Items → Str
  encode_items nil = []
  encode_items (cons v vs) = encode v ++ encode_items vs

-- an array of bulk strings, as every command is sent
abbrev pub bulk_strings : List Str → Items
bulk_strings [] = nil
bulk_strings (s ∷ l) = cons (bulk_string (some s)) (bulk_strings l)
