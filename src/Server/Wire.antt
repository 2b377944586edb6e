-- ===== src/Server/Wire.antt =====
-- A request that came over a connection and was parsed: what may be said of its frame.
use thesaurus.Prelude.{◌≡◌, none, some, List, ◌∷◌, ◌++◌, Str, Result, ok, err, ◌>>=◌, done}
use thesaurus.Resp2.{
  RespValue, encode, simple_string, simple_error, integer, bulk_string, null_array, array, Items,
  nil, cons,
}
use thesaurus.Resp2.Decode.{decode}
use thesaurus.Resp2.Carried.{IsInRange, AreInRange, decode-IsInRange}
use thesaurus.Resp2.RoundTrip.{IsEncodable, AreEncodable, decode-encode}
use thesaurus.Command.{HandlerError, Command}
use thesaurus.Command.Parse.{texts, parse_texts, from_resp2}

-- If the arguments are texts, the items are what the protocol can carry.
abbrev IsCarried : Items → Result HandlerError (List Str) → Type 0
IsCarried vs (ok l) = AreEncodable vs
IsCarried vs (err e) = Unit

texts-IsCarried : (vs : Items) → AreInRange vs → IsCarried vs (texts vs)
unfolding texts
texts-IsCarried nil h = tt
texts-IsCarried (cons (bulk_string (some s)) vs) (h, k) = further (texts vs) (texts-IsCarried vs k)
  where
    further :
        (r : Result HandlerError (List Str))
        → IsCarried vs r
        → IsCarried (cons (bulk_string (some s)) vs) (r >>= λ l. ok (s ∷ l))
    further (ok l) c = (h, c)
    further (err e) c = tt
texts-IsCarried (cons (bulk_string none) vs) h = tt
texts-IsCarried (cons (simple_string s) vs) h = tt
texts-IsCarried (cons (simple_error s) vs) h = tt
texts-IsCarried (cons (integer z) vs) h = tt
texts-IsCarried (cons null_array vs) h = tt
texts-IsCarried (cons (array us) vs) h = tt

parse_texts-IsCarried :
    (vs : Items) (r : Result HandlerError (List Str)) (cmd : Command)
    → parse_texts r vs ≡ done (ok cmd)
    → IsCarried vs r
    → AreEncodable vs
unfolding parse_texts
parse_texts-IsCarried vs (ok l) cmd e h = h
parse_texts-IsCarried vs (err x) cmd e h = cc

request-IsEncodable :
    (v : RespValue) (cmd : Command) → from_resp2 v ≡ done (ok cmd) → IsInRange v → IsEncodable v
unfolding from_resp2
request-IsEncodable (array vs) cmd e (c, h) =
    (c, parse_texts-IsCarried vs (texts vs) cmd e (texts-IsCarried vs h))
request-IsEncodable (simple_string s) cmd e h = cc
request-IsEncodable (simple_error s) cmd e h = cc
request-IsEncodable (integer z) cmd e h = cc
request-IsEncodable (bulk_string o) cmd e h = cc
request-IsEncodable null_array cmd e h = cc

decoded-IsEncodable :
    (stream rest : Str) (frame : RespValue) (cmd : Command)
    → decode stream ≡ done (ok (frame, rest))
    → from_resp2 frame ≡ done (ok cmd)
    → IsEncodable frame
decoded-IsEncodable stream rest frame cmd d e =
    request-IsEncodable frame cmd e (decode-IsInRange stream rest frame d)

-- A frame that was decoded from the bytes of a connection, whatever they are, and that parses as a
-- command, is read back from the encoding that the handler writes to the log, with any bytes behind
-- it.
pub decode-encode_decoded :
    (stream rest log : Str) (frame : RespValue) (cmd : Command)
    → decode stream ≡ done (ok (frame, rest))
    → from_resp2 frame ≡ done (ok cmd)
    → decode (encode frame ++ log) ≡ done (ok (frame, log))
decode-encode_decoded stream rest log frame cmd d e =
    decode-encode frame log (decoded-IsEncodable stream rest frame cmd d e)
