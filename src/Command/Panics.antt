-- ===== src/Command/Panics.antt =====
-- The one request on which `from_resp2` panics.
use thesaurus.Prelude.{
  ◌≡◌, ◌≢◌, ◌↔◌, refl, ap, ◌∙◌, ◌>>=◌, Bool, true, false, none, some, List, [], ◌∷◌, arith, Str,
  Result, ok, err, Outcome, done, panicked, poisoned, if◌then◌else◌, str_eq, codes,
}
use thesaurus.Resp2.{
  RespValue, simple_string, simple_error, integer, bulk_string, bulk_strings, null_array, array,
  Items, nil, cons,
}
use thesaurus.Command
use thesaurus.Command.{HandlerError}
use thesaurus.Command.Checked
use thesaurus.Command.Checked.{Checked}
use thesaurus.Command.Arity.{
  Returns, parse_dbsize_command-Returns, parse_expire_commands-Returns,
  parse_flushdb_command-Returns, parse_key_command-Returns, parse_key_with_elements_command-Returns,
  parse_keys_command-Returns, parse_lindex_command-Returns, parse_lrange_command-Returns,
  parse_lset_command-Returns, parse_mset_command-Returns, parse_ping_command-Returns,
  parse_pop_command-Returns, parse_select_command-Returns, parse_sismember_command-Returns,
  parse_smismember_command-Returns, parse_smove_command-Returns, parse_srandmember_command-Returns,
}
use thesaurus.Command.Arguments.{check_min_arity}
use thesaurus.Command.StringArguments.{
  SetOptions, no_options, takes_value, flag_option, value_option, parse_set_options,
  parse_set_command,
}
use thesaurus.Command.Parse.{from_resp2, texts, parse_texts, parse_by_name}

if_Returns :
    {A : Type 0} (b : Bool) (x y : Outcome A) → Returns x → Returns y → Returns (if b then x else y)
if_Returns true x y h k = h
if_Returns false x y h k = k

-- The rest of a chain of tests, and an arm of it.
record IsSafe {A : Type 0} (x : Outcome A) : Type 0 where
  returns : Returns x

record Arm {A : Type 0} (b : Bool) (x : Outcome A) : Type 0 where
  taken : Returns x

arm : {A : Type 0} (b : Bool) {x : Outcome A} → Returns x → Arm b x
arm b h = record { taken = h }

infixr 2 ◌<|>◌
◌<|>◌ : {A : Type 0} {b : Bool} {x y : Outcome A} → Arm b x → IsSafe y → IsSafe (if b then x else y)
◌<|>◌ {A} {b} {x} {y} h k = record { returns = if_Returns b x y h.taken k.returns }

bind_Returns :
    {A B : Type 0} (m : Checked A) (f : A → Checked B)
    → Returns m
    → ((a : A) → Returns (f a))
    → Returns (Checked.◌>>=◌ m f)
bind_Returns (done (ok a)) f h k = k a
bind_Returns (done (err e)) f h k = tt
bind_Returns panicked f h k = elim h [ ]
bind_Returns poisoned f h k = elim h [ ]

flag_option-Returns : (token : Str) (o : SetOptions) → Returns (flag_option token o)
unfolding flag_option
flag_option-Returns token o = ground arith

value_option-Returns : (token value : Str) (o : SetOptions) → Returns (value_option token value o)
unfolding value_option
value_option-Returns token value o = ground arith

parse_set_options-Returns :
    (l : List Str) (o : SetOptions) → Returns (parse_set_options (bulk_strings l) o)
unfolding parse_set_options
parse_set_options-Returns [] o = tt
parse_set_options-Returns (token ∷ []) o =
    if_Returns (takes_value token) _ _ tt (flag_option-Returns token o)
parse_set_options-Returns (token ∷ value ∷ rest) o =
    if_Returns (takes_value token) _ _
      (bind_Returns (value_option token value o) _ (value_option-Returns token value o)
        (parse_set_options-Returns rest))
      (bind_Returns (flag_option token o) _ (flag_option-Returns token o)
        (parse_set_options-Returns (value ∷ rest)))

parse_set_command-Returns :
    (name : Str) (l : List Str) → Returns (parse_set_command (bulk_strings (name ∷ l)))
unfolding parse_set_command check_min_arity
parse_set_command-Returns name [] = tt
parse_set_command-Returns name (key ∷ []) = tt
parse_set_command-Returns name (key ∷ value ∷ l) = bind_Returns _ _ (ground arith) λ u.
    bind_Returns (parse_set_options (bulk_strings l) no_options) _
      (parse_set_options-Returns l no_options) (λ o. tt)

parse_by_name-IsSafe :
    (name : Str) (l : List Str) → IsSafe (parse_by_name name (bulk_strings (name ∷ l)))
unfolding parse_by_name
parse_by_name-IsSafe name l =
    arm (str_eq name (codes "PING")) (parse_ping_command-Returns name l)
    <|> arm (str_eq name (codes "GET")) (parse_key_command-Returns name l Command.get)
    <|> arm (str_eq name (codes "SET")) (parse_set_command-Returns name l)
    <|> arm (str_eq name (codes "DEL")) (parse_keys_command-Returns name l Command.delete)
    <|> arm (str_eq name (codes "GETDEL")) (parse_key_command-Returns name l Command.get_del)
    <|> arm (str_eq name (codes "EXISTS")) (parse_keys_command-Returns name l Command.exists)
    <|> arm (str_eq name (codes "MGET")) (parse_keys_command-Returns name l Command.mget)
    <|> arm (str_eq name (codes "MSET")) (parse_mset_command-Returns name l)
    <|> arm (str_eq name (codes "STRLEN")) (parse_key_command-Returns name l Command.strlen)
    <|> arm (str_eq name (codes "LPUSH"))
        (parse_key_with_elements_command-Returns name l Command.lpush)
    <|> arm (str_eq name (codes "RPUSH"))
        (parse_key_with_elements_command-Returns name l Command.rpush)
    <|> arm (str_eq name (codes "LPUSHX"))
        (parse_key_with_elements_command-Returns name l Command.lpushx)
    <|> arm (str_eq name (codes "RPUSHX"))
        (parse_key_with_elements_command-Returns name l Command.rpushx)
    <|> arm (str_eq name (codes "LPOP")) (parse_pop_command-Returns name l Command.lpop)
    <|> arm (str_eq name (codes "RPOP")) (parse_pop_command-Returns name l Command.rpop)
    <|> arm (str_eq name (codes "LSET")) (parse_lset_command-Returns name l)
    <|> arm (str_eq name (codes "LLEN")) (parse_key_command-Returns name l Command.llen)
    <|> arm (str_eq name (codes "LINDEX")) (parse_lindex_command-Returns name l)
    <|> arm (str_eq name (codes "LRANGE")) (parse_lrange_command-Returns name l)
    <|> arm (str_eq name (codes "SADD"))
        (parse_key_with_elements_command-Returns name l Command.sadd)
    <|> arm (str_eq name (codes "SMEMBERS")) (parse_key_command-Returns name l Command.smembers)
    <|> arm (str_eq name (codes "SISMEMBER")) (parse_sismember_command-Returns name l)
    <|> arm (str_eq name (codes "SMISMEMBER")) (parse_smismember_command-Returns name l)
    <|> arm (str_eq name (codes "SRANDMEMBER")) (parse_srandmember_command-Returns name l)
    <|> arm (str_eq name (codes "SCARD")) (parse_key_command-Returns name l Command.scard)
    <|> arm (str_eq name (codes "SMOVE")) (parse_smove_command-Returns name l)
    <|> arm (str_eq name (codes "SPOP")) (parse_pop_command-Returns name l Command.spop)
    <|> arm (str_eq name (codes "SREM"))
        (parse_key_with_elements_command-Returns name l Command.srem)
    <|> arm (str_eq name (codes "TTL")) (parse_key_command-Returns name l Command.ttl)
    <|> arm (str_eq name (codes "PTTL")) (parse_key_command-Returns name l Command.pttl)
    <|> arm (str_eq name (codes "EXPIRETIME"))
        (parse_key_command-Returns name l Command.expire_time)
    <|> arm (str_eq name (codes "PEXPIRETIME"))
        (parse_key_command-Returns name l Command.pexpire_time)
    <|> arm (str_eq name (codes "PERSIST")) (parse_key_command-Returns name l Command.persist)
    <|> arm (str_eq name (codes "EXPIRE")) (parse_expire_commands-Returns name l Command.expire)
    <|> arm (str_eq name (codes "PEXPIRE")) (parse_expire_commands-Returns name l Command.pexpire)
    <|> arm (str_eq name (codes "EXPIREAT"))
        (parse_expire_commands-Returns name l Command.expire_at)
    <|> arm (str_eq name (codes "PEXPIREAT"))
        (parse_expire_commands-Returns name l Command.pexpire_at)
    <|> arm (str_eq name (codes "KEYS")) (parse_key_command-Returns name l Command.keys)
    <|> arm (str_eq name (codes "DIGEST")) (parse_key_command-Returns name l Command.digest)
    <|> arm (str_eq name (codes "SELECT")) (parse_select_command-Returns name l)
    <|> arm (str_eq name (codes "DBSIZE")) (parse_dbsize_command-Returns name l)
    <|> arm (str_eq name (codes "FLUSHDB")) (parse_flushdb_command-Returns name l)
    <|> record { returns = tt }

-- What the check lets through are these texts.
abbrev AreTexts : Items → Result HandlerError (List Str) → Type 0
AreTexts vs (ok l) = vs ≡ bulk_strings l
AreTexts vs (err e) = Unit

texts-AreTexts : (vs : Items) → AreTexts vs (texts vs)
unfolding texts
texts-AreTexts nil = refl
texts-AreTexts (cons (bulk_string (some s)) vs) = further (texts vs) (texts-AreTexts vs)
  where
    further :
        (r : Result HandlerError (List Str))
        → AreTexts vs r
        → AreTexts (cons (bulk_string (some s)) vs) (r >>= λ l. ok (s ∷ l))
    further (ok l) h = ap (cons (bulk_string (some s))) h
    further (err e) h = tt
texts-AreTexts (cons (bulk_string none) vs) = tt
texts-AreTexts (cons (simple_string s) vs) = tt
texts-AreTexts (cons (simple_error s) vs) = tt
texts-AreTexts (cons (integer z) vs) = tt
texts-AreTexts (cons null_array vs) = tt
texts-AreTexts (cons (array ws) vs) = tt

no_panic : {A : Type 0} (o : Outcome A) → Returns o → o ≢ panicked
no_panic (done a) h e = cc
no_panic panicked h e = elim h [ ]
no_panic poisoned h e = elim h [ ]

at_panic :
    (vs : Items) (r : Result HandlerError (List Str))
    → AreTexts vs r
    → parse_texts r vs ≡ panicked
    → vs ≡ nil
unfolding parse_texts
at_panic vs (ok []) h e = h
at_panic vs (ok (name ∷ args)) h e =
    absurd (no_panic _ (parse_by_name-IsSafe name args).returns (rw h at e))
at_panic vs (err x) h e = cc

only_empty : (v : RespValue) → from_resp2 v ≡ panicked → v ≡ array nil
unfolding from_resp2
only_empty (array vs) e = ap array (at_panic vs (texts vs) (texts-AreTexts vs) e)
only_empty (simple_string s) e = cc
only_empty (simple_error s) e = cc
only_empty (integer z) e = cc
only_empty (bulk_string s) e = cc
only_empty null_array e = cc

-- The parser panics exactly on the empty array: on every other value the checks before an index, and
-- those before the arms that are marked unreachable, are enough.
pub from_resp2-panics : (v : RespValue) → (from_resp2 v ≡ panicked) ↔ (v ≡ array nil)
from_resp2-panics v =
    (only_empty v, λ e. ap from_resp2 e ∙ (unfold from_resp2 texts parse_texts in refl))
