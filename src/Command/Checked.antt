-- ===== src/Command/Checked.antt =====
-- What the parsers of command/ read of their arguments: `args[i]`, which panics out of range, and the
-- match on a bulk string, whose other arm is `unreachable!()`.
use thesaurus.Prelude.{
  ℕ, zero, suc, Option, none, some, List, [], ◌∷◌, Str, Result, ok, err, Outcome, done, panicked,
  poisoned,
}
use thesaurus.Resp2.{RespValue, bulk_string, Items, nil, cons}
use thesaurus.Command.{HandlerError, syntax_error, not_an_integer}

-- a `Result`, or a panic on the way to it
abbrev pub Checked : Type 0 → Type 0
Checked A = Outcome (Result HandlerError A)

-- `?`
infixl 5 ◌>>=◌ ◌>>◌
abbrev pub ◌>>=◌ : {A B : Type 0} → Checked A → (A → Checked B) → Checked B
done (ok a) >>= f = f a
done (err e) >>= f = done (err e)
panicked >>= f = panicked
poisoned >>= f = poisoned

abbrev pub ◌>>◌ : {B : Type 0} → Checked (Unit {0}) → Checked B → Checked B
m >> k = m >>= λ _. k

-- `RespValue::BulkString(Some(s)) => s`, and `_ => unreachable!()`
abbrev pub text : RespValue → Checked Str
text (bulk_string (some s)) = done (ok s)
text _ = panicked

-- the match on `args[i]`
abbrev pub arg : Items → ℕ → Checked Str
arg nil i = panicked
arg (cons v vs) zero = text v
arg (cons v vs) (suc i) = arg vs i

-- the match on `args.get(i)` whose other arm is a syntax error
abbrev pub next_token : RespValue → Checked Str
next_token (bulk_string (some s)) = done (ok s)
next_token _ = done (err syntax_error)

-- `args.iter().skip(n)`
abbrev pub skip : ℕ → Items → Items
skip zero vs = vs
skip (suc n) nil = nil
skip (suc n) (cons v vs) = skip n vs

-- the loop over some arguments
abbrev pub all_texts : Items → Checked (List Str)
all_texts nil = done (ok [])
all_texts (cons v vs) = let rest = all_texts vs in text v >>= λ s. rest >>= λ l. done (ok (s ∷ l))

-- `map_err(|_| HandlerError::NotAnInteger(s.clone()))`
abbrev pub or_not_an_integer : {A : Type 0} → Option A → Str → Checked A
or_not_an_integer none s = done (err (not_an_integer s))
or_not_an_integer (some a) s = done (ok a)
