-- ===== src/Utf8.antt =====
-- `std::str::from_utf8`, as a test: the well-formed byte sequences of the Unicode standard.
use thesaurus.Prelude.{
  ℕ, zero, suc, ◌≡◌, refl, ◌∙◌, Bool, true, false, ◌&&◌, [], ◌∷◌, ◌++◌, arith, Str, ltb, leb, ◌==◌,
  if◌then◌else◌,
}

-- `n` continuation bytes are due, the next one between `lo` and `hi`.
unfoldable pub utf8_from : ℕ → ℕ → ℕ → Str → Bool
utf8_from n lo hi [] = n == 0
utf8_from (suc n) lo hi (c ∷ s) = leb lo c && leb c hi && utf8_from n 0x80 0xbf s
utf8_from zero lo hi (c ∷ s) =
    let one = utf8_from 0 0x80 0xbf s in
    let two = utf8_from 1 0x80 0xbf s in
    let three =
      utf8_from 2 (if c == 0xe0 then 0xa0 else 0x80) (if c == 0xed then 0x9f else 0xbf) s in
    let four =
      utf8_from 3 (if c == 0xf0 then 0x90 else 0x80) (if c == 0xf4 then 0x8f else 0xbf) s in
    if ltb c 0x80
    then one
    else if leb 0xc2 c && leb c 0xdf
    then two
    else if leb 0xe0 c && leb c 0xef
    then three
    else if leb 0xf0 c && leb c 0xf4
    then four
    else false

unfoldable pub is_utf8 : Str → Bool
unfolding utf8_from
is_utf8 s = utf8_from 0 0x80 0xbf s

utf8_from_zero : (lo hi : ℕ) (s : Str) → utf8_from 0 lo hi s ≡ utf8_from 0 0x80 0xbf s
unfolding utf8_from
utf8_from_zero lo hi [] = refl
utf8_from_zero lo hi (c ∷ s) = refl

utf8_from-append :
    (s : Str) (n lo hi : ℕ) (t : Str)
    → utf8_from n lo hi s ≡ true
    → utf8_from 0 0x80 0xbf t ≡ true
    → utf8_from n lo hi (s ++ t) ≡ true
unfolding utf8_from
utf8_from-append [] zero lo hi t h k = utf8_from_zero lo hi t ∙ k
utf8_from-append [] (suc n) lo hi t h k = ground arith
utf8_from-append (c ∷ s) (suc n) lo hi t h k = ground (arith, utf8_from-append s n 0x80 0xbf t)
utf8_from-append (c ∷ s) zero lo hi t h k = ground (
  arith,
  utf8_from-append s 0 0x80 0xbf t,
  utf8_from-append s 1 0x80 0xbf t,
  utf8_from-append s 2 (if c == 0xe0 then 0xa0 else 0x80) (if c == 0xed then 0x9f else 0xbf) t,
  utf8_from-append s 3 (if c == 0xf0 then 0x90 else 0x80) (if c == 0xf4 then 0x8f else 0xbf) t,
)

-- One well-formed text behind another is a well-formed text.
pub is_utf8-append : (s t : Str) → is_utf8 s ≡ true → is_utf8 t ≡ true → is_utf8 (s ++ t) ≡ true
unfolding is_utf8
is_utf8-append s t h k = utf8_from-append s 0 0x80 0xbf t h k
