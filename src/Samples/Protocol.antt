-- ===== src/Samples/Protocol.antt =====
-- The protocol and the patterns, on single values.
use thesaurus.Prelude.{panicked, ◌∷◌}
use thesaurus.Command.Panics.{from_resp2-panics}
use thesaurus.Command.{Command, if_deq, px}
use thesaurus.Command.Parse.{from_resp2}
use thesaurus.Command.Requests.{request_name, request_args}
use thesaurus.Command.RoundTrip.{from_resp2_lem}
use thesaurus.Prelude.{◌≡◌, ◌↔◌, refl, true, some, ◌++◌, arith, codes, done, ok, negsuc}
use thesaurus.Resp2.{RespValue, bulk_strings, array, bulk_string, integer, encode, nil, cons}
use thesaurus.Resp2.Decode.{decode}
use thesaurus.Resp2.RoundTrip.{IsEncodable, decode-encode}
use thesaurus.Pattern.{string_match}
use thesaurus.Pattern.Glob.{Matches}
use thesaurus.Pattern.Search.{string_match-Matches}
use thesaurus.Utf8.{is_utf8}

abbrev request : RespValue
request = array (cons (bulk_string (some (codes "GET"))) (cons (integer (negsuc 4)) nil))

request-IsEncodable : IsEncodable request
unfolding is_utf8
request-IsEncodable = (omega arith, ((omega arith, refl), (omega arith, tt)))

decode-encode_example : decode (encode request ++ codes "rest") ≡ done (ok (request, codes "rest"))
decode-encode_example = decode-encode request (codes "rest") request-IsEncodable

string_match-Matches_example :
    (string_match (codes "hello") (codes "h*[k-m]?") ≡ true)
    ↔ Matches (codes "hello") (codes "h*[k-m]?")
string_match-Matches_example =
    string_match-Matches 104 (codes "ello") (codes "h*[k-m]?") (omega arith)

abbrev setting : Command
setting = Command.set (codes "k") (codes "v") (some (if_deq 0xab)) (some (px 1500)) true

from_resp2_lem_example :
    from_resp2 (array (bulk_strings (request_name setting ∷ request_args setting)))
    ≡ done (ok setting)
from_resp2_lem_example = from_resp2_lem setting (refl, refl)

from_resp2-panics_example : (from_resp2 (array nil) ≡ panicked) ↔ (array nil ≡ array nil)
from_resp2-panics_example = from_resp2-panics (array nil)
