-- ===== src/Command/Tests.antt =====
-- Runs of the command parser.
use thesaurus.Prelude.{◌≡◌, refl, true, some, [], ◌∷◌, codes, ok, err, done, panicked}
use thesaurus.Decimal.{parse_unsigned}
use thesaurus.Resp2.{array, nil, bulk_strings}
use thesaurus.Command.{wrong_arity, nx, ex, set}
use thesaurus.Command.Parse.{from_resp2}

empty_array_panics : from_resp2 (array nil) ≡ panicked
unfolding from_resp2
empty_array_panics = refl

set_with_options :
    from_resp2 (
      array (
        bulk_strings (
          codes "SET"
          ∷ codes "k"
          ∷ codes "v"
          ∷ codes "EX"
          ∷ codes "10"
          ∷ codes "NX"
          ∷ codes "GET"
          ∷ [])))
    ≡ done (ok (set (codes "k") (codes "v") (some nx) (some (ex 10)) true))
unfolding from_resp2 parse_unsigned
set_with_options = refl

get_arity : from_resp2 (array (bulk_strings (codes "GET" ∷ []))) ≡ done (err (wrong_arity 2 1))
unfolding from_resp2
get_arity = refl
