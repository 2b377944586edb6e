-- ===== src/Resp2/Tests.antt =====
-- Runs of the encoder and the decoder.
use thesaurus.Prelude.{◌≡◌, refl, [], ◌∷◌, ◌++◌, codes, ok, err, done, panicked, negsuc}
use thesaurus.Errors.{unexpected_eof}
use thesaurus.Decimal.{parse_i64, print}
use thesaurus.Utf8.{is_utf8}
use thesaurus.Resp2.{RespValue, integer, array, encode, bulk_strings}
use thesaurus.Resp2.Decode.{decode}

abbrev ping : RespValue
ping = array (bulk_strings (codes "PING" ∷ codes "hello" ∷ []))

encode-ping : encode ping ≡ codes "*2\r\n$4\r\nPING\r\n$5\r\nhello\r\n"
unfolding encode print
encode-ping = refl

decode-ping : decode (encode ping ++ codes ":1\r\n") ≡ done (ok (ping, codes ":1\r\n"))
unfolding encode decode print parse_i64 is_utf8
decode-ping = refl

decode_cut_off : decode (codes "$5\r\nhel") ≡ done (err unexpected_eof)
unfolding decode parse_i64 is_utf8
decode_cut_off = refl

decode_minus : decode (codes ":-42\r\n") ≡ done (ok (integer (negsuc 41), []))
unfolding decode parse_i64 is_utf8
decode_minus = refl

decode_huge_length : decode (codes "$9223372036854775807\r\n") ≡ panicked
unfolding decode parse_i64 is_utf8
decode_huge_length = refl
