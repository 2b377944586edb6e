-- ===== src/Server/Session/Splitting.antt =====
-- The text of an unknown command stands in the error that is sent back: what a line end in it does.
use mathlib.Core.List.{append_assoc}
use thesaurus.Prelude.{
  ℕ, ◌≡◌, refl, Bool, true, false, ◌||◌, List, [], ◌∷◌, ◌++◌, arith, Str, codes, str_eq, str_eq_iff,
  ok, err, done, ◌==◌,
}
use thesaurus.Utf8.{is_utf8, is_utf8-append}
use thesaurus.Resp2.{Items, RespValue, simple_error, array, bulk_strings, encode, crlf}
use thesaurus.Resp2.Decode.{decode}
use thesaurus.Resp2.Lines.{IsHeader, IsLine}
use thesaurus.Resp2.RoundTrip.{IsEncodable, decode-encode}
use thesaurus.Command.{unknown_command}
use thesaurus.Command.Parse.{parse_by_name}
use thesaurus.Command.RoundTrip.{from_resp2-bulk_strings}
use thesaurus.Executor.{Env, reply}
use thesaurus.Server.Handler.{Server, handle, parse_error}

-- whether a carriage return stands in the text
abbrev has_cr : Str → Bool
has_cr [] = false
has_cr (c ∷ s) = (c == b'\r') || has_cr s

differs : (known name : Str) → has_cr known ≡ false → has_cr name ≡ true → str_eq name known ≡ false
differs known name h k = ground (arith, str_eq_iff name known)

has_cr-append : (s t : Str) → has_cr t ≡ true → has_cr (s ++ t) ≡ true
has_cr-append [] t h = h
has_cr-append (c ∷ s) t h = ground (arith, has_cr-append s t h)

parse_by_name-unknown :
    (name : Str) (args : Items)
    → has_cr name ≡ true
    → parse_by_name name args ≡ done (err (unknown_command name))
unfolding parse_by_name
parse_by_name-unknown name args h = rw (
  differs (codes "PING") name refl h,
  differs (codes "GET") name refl h,
  differs (codes "SET") name refl h,
  differs (codes "DEL") name refl h,
  differs (codes "GETDEL") name refl h,
  differs (codes "EXISTS") name refl h,
  differs (codes "MGET") name refl h,
  differs (codes "MSET") name refl h,
  differs (codes "STRLEN") name refl h,
  differs (codes "LPUSH") name refl h,
  differs (codes "RPUSH") name refl h,
  differs (codes "LPUSHX") name refl h,
  differs (codes "RPUSHX") name refl h,
  differs (codes "LPOP") name refl h,
  differs (codes "RPOP") name refl h,
  differs (codes "LSET") name refl h,
  differs (codes "LLEN") name refl h,
  differs (codes "LINDEX") name refl h,
  differs (codes "LRANGE") name refl h,
  differs (codes "SADD") name refl h,
  differs (codes "SMEMBERS") name refl h,
  differs (codes "SISMEMBER") name refl h,
  differs (codes "SMISMEMBER") name refl h,
  differs (codes "SRANDMEMBER") name refl h,
  differs (codes "SCARD") name refl h,
  differs (codes "SMOVE") name refl h,
  differs (codes "SPOP") name refl h,
  differs (codes "SREM") name refl h,
  differs (codes "TTL") name refl h,
  differs (codes "PTTL") name refl h,
  differs (codes "EXPIRETIME") name refl h,
  differs (codes "PEXPIRETIME") name refl h,
  differs (codes "PERSIST") name refl h,
  differs (codes "EXPIRE") name refl h,
  differs (codes "PEXPIRE") name refl h,
  differs (codes "EXPIREAT") name refl h,
  differs (codes "PEXPIREAT") name refl h,
  differs (codes "KEYS") name refl h,
  differs (codes "DIGEST") name refl h,
  differs (codes "SELECT") name refl h,
  differs (codes "DBSIZE") name refl h,
  differs (codes "FLUSHDB") name refl h,
)

IsLine-append : (s t : Str) → IsLine s → IsLine t → IsLine (s ++ t)
IsLine-append [] t h k = k
IsLine-append (c ∷ s) t h k = (h.0, IsLine-append s t h.1 k)

abbrev pub prefix : Str
prefix = codes "ERR unknown command '"

-- a name that closes the line of the error, goes on with a reply of its own and opens another line
abbrev pub injected : Str → RespValue → Str
injected t v = t ++ (crlf ++ (encode v ++ codes "-"))

prefix-IsHeader : (t : Str) → IsHeader t → IsHeader (prefix ++ t)
prefix-IsHeader t h = (
  IsLine-append prefix t (ground arith) h.0,
  is_utf8-append prefix t (unfold is_utf8 in refl) h.1,
)

split :
    (t : Str) (v : RespValue)
    → encode (simple_error (prefix ++ (injected t v ++ codes "'")))
      ≡ encode (simple_error (prefix ++ t))
        ++ (encode v ++ (encode (simple_error (codes "'")) ++ []))
unfolding encode
split t v = simp append_assoc

-- One request can get three replies: where the name of the command is a text without a line end, then
-- a line end, then the encoding of any value that the protocol can carry, and a dash, the client that
-- reads the response reads an error, that value as a reply, and another error.
pub handle-splits :
    (debug : RespValue → Str) (env : Env) (at : ℕ) (server : Server) (t : Str) (v : RespValue)
    (args : List Str)
    → IsHeader t
    → IsEncodable v
    → (r : RespValue) × ((handle debug env at (array (bulk_strings (injected t v ∷ args))) server).0
        ≡ reply r)
      × (after_one : Str) × (after_two : Str) × (decode (encode r)
          ≡ done (ok (simple_error (prefix ++ t), after_one)))
      × (decode after_one ≡ done (ok (v, after_two)))
      × (decode after_two ≡ done (ok (simple_error (codes "'"), [])))
handle-splits debug env at server t v args h k = (
  simple_error (prefix ++ (injected t v ++ codes "'")),
  answer,
  encode v ++ (encode (simple_error (codes "'")) ++ []),
  encode (simple_error (codes "'")) ++ [],
  rw (split t v) (decode-encode (simple_error (prefix ++ t)) _ (prefix-IsHeader t h)),
  decode-encode v _ k,
  decode-encode (simple_error (codes "'")) [] ((omega arith, tt), unfold is_utf8 in refl),
)
  where
    cr : has_cr (injected t v) ≡ true
    cr = has_cr-append t (crlf ++ (encode v ++ codes "-")) refl

    answer :
        (handle debug env at (array (bulk_strings (injected t v ∷ args))) server).0
        ≡ reply (simple_error (prefix ++ (injected t v ++ codes "'")))
    answer =
        unfold handle in
        rw
          (
            from_resp2-bulk_strings (injected t v) args,
            parse_by_name-unknown (injected t v) (bulk_strings (injected t v ∷ args)) cr,
          )
          (unfold parse_error in refl)
