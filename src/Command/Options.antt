-- ===== src/Command/Options.antt =====
-- The options of SET, and the pairs of MSET, read back by the parsers of command/string.rs.
use thesaurus.Prelude.{
  suc, done, ◌*◌, ◌%◌, ◌≤◌, ◌≡◌, refl, ap, ◌∙◌, Bool, true, false, Option, none, some, List, [],
  ◌∷◌, ◌++◌, arith, Str, codes, ok, length, ltb, ◌==◌, str_eq,
}
use thesaurus.Decimal.{max_u64}
use thesaurus.Decimal.RoundTrip.{parse_unsigned-print}
use thesaurus.Decimal.Hexadecimal.{parse_unsigned-print_hex}
use thesaurus.Resp2.{bulk_string, bulk_strings, Items, nil, cons, count}
use thesaurus.Command.Checked.{all_texts}
use thesaurus.Command.{
  Command, SetCondition, nx, xx, if_eq, if_ne, if_deq, if_dne, SetExpiry, ex, px, ex_at, px_at,
  keep_ttl,
}
use thesaurus.Command.Arguments.{check_min_arity}
use thesaurus.Command.StringArguments.{
  parse_set_command, parse_mset_command, pairs, SetOptions, no_options, parse_set_options,
  flag_option, value_option, takes_value,
}
use thesaurus.Command.Requests.{
  unpaired, condition_args, expiry_args, get_args, condition_fits, fits,
}

options : Option SetCondition → Option SetExpiry → Bool → SetOptions
options c e g = record { condition = c; expiry = e; get = g }

parse_expiry :
    (c : Option SetCondition) (g : Bool) (e : Option SetExpiry)
    → fits e ≡ true
    → parse_set_options (bulk_strings (expiry_args e)) (options c none g)
      ≡ done (ok (options c e g))
unfolding options parse_set_options takes_value value_option flag_option str_eq
parse_expiry c g none h = refl
parse_expiry c g (some (ex n)) h = rw (parse_unsigned-print max_u64 n (ground arith))
parse_expiry c g (some (px n)) h = rw (parse_unsigned-print max_u64 n (ground arith))
parse_expiry c g (some (ex_at n)) h = rw (parse_unsigned-print max_u64 n (ground arith))
parse_expiry c g (some (px_at n)) h = rw (parse_unsigned-print max_u64 n (ground arith))
parse_expiry c g (some keep_ttl) h = refl

-- A token without a value, then the others.
parse_flag :
    (token : Str) (rest : Items) (o o' : SetOptions)
    → takes_value token ≡ false
    → flag_option token o ≡ done (ok o')
    → parse_set_options (cons (bulk_string (some token)) rest) o ≡ parse_set_options rest o'
unfolding parse_set_options
parse_flag token nil o o' t f = rw (t, f)
parse_flag token (cons value rest) o o' t f = rw (t, f)

parse_get :
    (c : Option SetCondition) (g : Bool) (e : Option SetExpiry)
    → fits e ≡ true
    → parse_set_options (bulk_strings (get_args g ++ expiry_args e)) (options c none false)
      ≡ done (ok (options c e g))
unfolding options takes_value flag_option str_eq
parse_get c true e h =
    parse_flag (codes "GET") (bulk_strings (expiry_args e)) (options c none false)
      (options c none true) refl refl
    ∙ parse_expiry c true e h
parse_get c false e h = parse_expiry c false e h

parse_options :
    (c : Option SetCondition) (g : Bool) (e : Option SetExpiry)
    → condition_fits c ≡ true
    → fits e ≡ true
    → parse_set_options
        (bulk_strings (condition_args c ++ (get_args g ++ expiry_args e)))
        no_options
      ≡ done (ok (options c e g))
unfolding options parse_set_options takes_value value_option flag_option str_eq
parse_options none g e p h = parse_get none g e h
parse_options (some nx) g e p h =
    parse_flag (codes "NX") (bulk_strings (get_args g ++ expiry_args e)) no_options
      (options (some nx) none false) refl refl
    ∙ parse_get (some nx) g e h
parse_options (some xx) g e p h =
    parse_flag (codes "XX") (bulk_strings (get_args g ++ expiry_args e)) no_options
      (options (some xx) none false) refl refl
    ∙ parse_get (some xx) g e h
parse_options (some (if_eq s)) g e p h = parse_get (some (if_eq s)) g e h
parse_options (some (if_ne s)) g e p h = parse_get (some (if_ne s)) g e h
parse_options (some (if_deq n)) g e p h =
    rw (parse_unsigned-print_hex n (ground arith)) (parse_get (some (if_deq n)) g e h)
parse_options (some (if_dne n)) g e p h =
    rw (parse_unsigned-print_hex n (ground arith)) (parse_get (some (if_dne n)) g e h)

pairs-unpaired : (items : List (Str × Str)) → pairs (unpaired items) ≡ items
pairs-unpaired [] = refl
pairs-unpaired ((k, v) ∷ items) = ap (λ l. (k, v) ∷ l) (pairs-unpaired items)

length-unpaired : (items : List (Str × Str)) → length (unpaired items) ≡ 2 * length items
length-unpaired [] = refl
length-unpaired ((k, v) ∷ items) = omega (arith, length-unpaired items)

pub count-bulk_strings : (l : List Str) → count (bulk_strings l) ≡ length l
count-bulk_strings [] = refl
count-bulk_strings (s ∷ l) = ap suc (count-bulk_strings l)

pub all_texts-bulk_strings : (l : List Str) → all_texts (bulk_strings l) ≡ done (ok l)
all_texts-bulk_strings [] = refl
all_texts-bulk_strings (s ∷ l) = rw (all_texts-bulk_strings l) refl

pub parse_set_command_lem :
    (key value : Str) (c : Option SetCondition) (g : Bool) (e : Option SetExpiry)
    → condition_fits c ≡ true
    → fits e ≡ true
    → parse_set_command (
        bulk_strings
          (codes "SET" ∷ key ∷ value ∷ condition_args c ++ (get_args g ++ expiry_args e)))
      ≡ done (ok (Command.set key value c e g))
unfolding parse_set_command check_min_arity options
parse_set_command_lem key value c g e p h = rw (
  enough (bulk_strings (condition_args c ++ (get_args g ++ expiry_args e))),
  parse_options c g e p h,
)
  where
    enough : (vs : Items) → ltb (suc (suc (suc (count vs)))) 3 ≡ false
    enough vs = ground arith

pub parse_mset_command_lem :
    (name : Str) (items : List (Str × Str))
    → 1 ≤ length items
    → parse_mset_command (bulk_strings (name ∷ unpaired items)) ≡ done (ok (Command.mset items))
unfolding parse_mset_command check_min_arity
parse_mset_command_lem name items h =
    rw (enough, odd, all_texts-bulk_strings (unpaired items), pairs-unpaired items)
  where
    enough : ltb (suc (count (bulk_strings (unpaired items)))) 3 ≡ false
    enough = ground (arith, length-unpaired items, count-bulk_strings (unpaired items))

    odd : (suc (count (bulk_strings (unpaired items))) % 2 == 0) ≡ false
    odd = ground (arith, length-unpaired items, count-bulk_strings (unpaired items))
