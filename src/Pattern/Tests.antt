-- ===== src/Pattern/Tests.antt =====
-- Runs of the glob matcher on inputs of the unit tests of pattern.rs.
use thesaurus.Prelude.{◌≡◌, refl, true, false, codes}
use thesaurus.Pattern.{string_match}

reversed_range : string_match (codes "b") (codes "[c-a]") ≡ true
unfolding string_match
reversed_range = refl

backtracks : string_match (codes "aaaaaaaac") (codes "a*a*a*b") ≡ false
unfolding string_match
backtracks = refl

user_names : string_match (codes "user:1000:name") (codes "user:*:name") ≡ true
unfolding string_match
user_names = refl

star_on_empty : string_match (codes "") (codes "**") ≡ false
unfolding string_match
star_on_empty = refl

unterminated : string_match (codes "o") (codes "[foo") ≡ true
unfolding string_match
unterminated = refl

escaped_dash : string_match (codes "b") (codes "[a\\-c]") ≡ false
unfolding string_match
escaped_dash = refl

negated : string_match (codes "hbllo") (codes "h[^e]llo") ≡ true
unfolding string_match
negated = refl
