-- ===== src/Pattern.antt =====
-- crates/thesaurus/src/pattern.rs, the part that is not the test module: the glob matcher.
pub mod Glob
pub mod Search
pub mod Tests
use thesaurus.Prelude.{
  ℕ, zero, suc, ◌+◌, ◌&&◌, ◌||◌, Bool, true, false, Option, none, some, [], ◌∷◌, Str, ltb, leb,
  ◌==◌, if◌then◌else◌, length,
}

abbrev pub max_depth : ℕ
max_depth = 1000

abbrev pub backslash : ℕ
backslash = 92

-- `while pattern.len() > 1 && pattern[1] == b'*'`, from the pattern behind its first star: the
-- rest behind the last star of the run
unfoldable pub skip_stars : Str → Str
skip_stars [] = []
skip_stars (c ∷ p) = let rest = skip_stars p in if c == b'*' then rest else c ∷ p

-- `matched |= ...` for a range, which may be reversed
unfoldable pub in_range : ℕ → ℕ → ℕ → Bool
in_range start end c = if ltb end start then leb end c && leb c start else leb start c && leb c end

-- The loop over a class: whether a member matched `c`, and the pattern from the closing bracket on,
-- or the empty one where no bracket closes the class.
unfoldable pub class_loop : ℕ → Str → Bool → Bool × Str
unfolding in_range
class_loop c [] matched = (matched, [])
class_loop c (a ∷ []) matched = if a == b']' then (matched, a ∷ []) else (matched || a == c, [])
class_loop c (a ∷ b ∷ []) matched =
    let escaped = class_loop c [] (matched || b == c) in
    let single = class_loop c (b ∷ []) (matched || a == c) in
    if a == backslash then escaped else if a == b']' then (matched, a ∷ b ∷ []) else single
class_loop c (a ∷ b ∷ d ∷ p) matched =
    let escaped = class_loop c (d ∷ p) (matched || b == c) in
    let range = class_loop c p (matched || in_range a d c) in
    let single = class_loop c (b ∷ d ∷ p) (matched || a == c) in
    if a == backslash
    then escaped
    else if a == b']'
    then (matched, a ∷ b ∷ d ∷ p)
    else if b == b'-'
    then range
    else single

abbrev pub starts_with_caret : Str → Bool
starts_with_caret [] = false
starts_with_caret (a ∷ p) = a == b'^'

-- `&pattern[1..]`, and the step over what may be missing at the end
abbrev pub behind_first : Str → Str
behind_first [] = []
behind_first (a ∷ p) = p

-- `matched == negated`
abbrev pub same : Bool → Bool → Bool
same true b = b
same false true = false
same false false = true

-- the arm for `[`, from the pattern behind it: the rest of the pattern if the class accepts `c`
unfoldable pub class_item : ℕ → Str → Option Str
unfolding class_loop
class_item c p =
    let negated = starts_with_caret p in
    let (matched, rest) = class_loop c (if negated then behind_first p else p) false in
    if same matched negated then none else some (behind_first rest)

-- the arm for a backslash; one with nothing behind it stands for itself
unfoldable pub escaped_item : ℕ → Str → Option Str
escaped_item c [] = if backslash == c then some [] else none
escaped_item c (a ∷ p) = if a == c then some p else none

-- The arms of the match but the star's, for the string's byte `c` and the pattern `x ∷ p`: the
-- pattern behind the item if it accepts `c`.
unfoldable pub consume : ℕ → ℕ → Str → Option Str
unfolding class_item escaped_item
consume c x p =
    if x == b'?'
    then some p
    else if x == b'['
    then class_item c p
    else if x == backslash
    then escaped_item c p
    else if x == c
    then some p
    else none

abbrev pub is_empty : Str → Bool
is_empty [] = true
is_empty (c ∷ s) = false

-- What a try at one offset, with the flag that it leaves, makes of the loop under a star.
abbrev pub after_try : Bool × Bool → Bool × Bool → Bool × Bool
after_try (true, flag) next = (true, flag)
after_try (false, true) next = (false, true)
after_try (false, false) next = next

-- `while !string.is_empty()` under a star. `try_at` is the recursive call; it answers with the flag
-- `skip_longer_matches` beside the result.
unfoldable pub star_loop : (Str → Bool × Bool) → Str → Bool × Bool
star_loop try_at [] = (false, true)
star_loop try_at (c ∷ s) = let next = star_loop try_at s in after_try (try_at (c ∷ s)) next

-- The entry of `string_match_impl`: the test of the depth.
abbrev pub at_depth : ℕ → Bool × Bool → Bool × Bool
at_depth depth result = if ltb max_depth depth then (false, false) else result

-- The arm for a star, once its run is skipped: a trailing star matches everything.
abbrev pub star_arm : Str → (Str → Str → Bool × Bool) → Str → Bool × Bool
star_arm [] enter s = (true, false)
star_arm (y ∷ q) enter s = star_loop (enter (y ∷ q)) s

-- The end of a round: a failed item returns, and trailing stars match the end of the string.
abbrev pub next_round : Option Str → Str → (Str → Str → Bool × Bool) → Bool × Bool
next_round none s go = (false, false)
next_round (some rest) [] go = (is_empty (skip_stars rest), false)
next_round (some rest) (d ∷ t) go = go (d ∷ t) rest

-- The body of `string_match_impl`, called with the flag down: wherever the flag is up, the caller
-- returns at once. The result comes with the flag. A round uses up a byte of the pattern, so the
-- length of the pattern is fuel enough.
unfoldable pub match_loop : ℕ → ℕ → Str → Str → Bool × Bool
unfolding skip_stars consume star_loop
match_loop fuel depth [] p = (is_empty p, false)
match_loop zero depth (c ∷ s) p = (false, false)
match_loop (suc fuel) depth (c ∷ s) [] = (false, false)
match_loop (suc fuel) depth (c ∷ s) (x ∷ p) =
    if x == b'*'
    then star_arm (skip_stars p) (λ q t. at_depth (depth + 1) (match_loop fuel (depth + 1) t q))
        (c ∷ s)
    else next_round (consume c x p) s (match_loop fuel depth)

unfoldable pub string_match : Str → Str → Bool
unfolding match_loop
string_match string pattern = (at_depth 0 (match_loop (length pattern) 0 string pattern)).0
