-- ===== src/Decimal/Bounds.antt =====
-- What is parsed as an integer of a machine type is in its range.
use thesaurus.Prelude.{
  ℕ, zero, suc, ◌+◌, ◌*◌, ◌≤◌, Bool-cases, inl, inr, Option, none, some, [], ◌∷◌, arith, Str, leb,
  ◌==◌, if◌then◌else◌, ℤ,
}
use thesaurus.Decimal.{max_i64, to_digit, push_digit, scan, scan_digits, to_pos, to_neg, parse_i64}
use thesaurus.Decimal.RoundTrip.{IsI64}

abbrev IsAtMost : ℕ → Option ℕ → Type 0
IsAtMost bound none = Unit
IsAtMost bound (some n) = n ≤ bound

push_digit-IsAtMost : (radix bound acc c : ℕ) → IsAtMost bound (push_digit radix bound acc c)
unfolding push_digit
push_digit-IsAtMost radix bound acc c = by_digit (to_digit radix c)
  where
    kept : (n : ℕ) → IsAtMost bound (if leb n bound then some n else none)
    kept n = elim (Bool-cases (leb n bound)) [ inl e ↦ rw e (ground arith) | inr e ↦ rw e tt ]

    by_digit :
        (o : Option ℕ)
        → IsAtMost bound (elim o [
          | none ↦ none
          | some d ↦ if leb (acc * radix + d) bound then some (acc * radix + d) else none
        ])
    by_digit none = tt
    by_digit (some d) = kept (acc * radix + d)

scan-IsAtMost :
    (radix bound acc : ℕ) (s : Str) → acc ≤ bound → IsAtMost bound (scan radix bound acc s)
unfolding scan
scan-IsAtMost radix bound acc [] h = h
scan-IsAtMost radix bound acc (c ∷ s) h =
    elim (push_digit radix bound acc c)
        as (λ o.
          IsAtMost bound o
          → IsAtMost bound (elim o [ none ↦ none | some acc' ↦ scan radix bound acc' s ])) [
            | none ↦ λ l. tt
            | some acc' ↦ λ l. scan-IsAtMost radix bound acc' s l
          ]
      (push_digit-IsAtMost radix bound acc c)

scan_digits-IsAtMost : (radix bound : ℕ) (s : Str) → IsAtMost bound (scan_digits radix bound s)
scan_digits-IsAtMost radix bound [] = tt
scan_digits-IsAtMost radix bound (c ∷ s) = scan-IsAtMost radix bound 0 (c ∷ s) (omega arith)

abbrev pub IsI64OrNone : Option ℤ → Type 0
IsI64OrNone none = Unit
IsI64OrNone (some z) = IsI64 z

to_pos-IsI64 : (o : Option ℕ) → IsAtMost max_i64 o → IsI64OrNone (to_pos o)
to_pos-IsI64 none h = tt
to_pos-IsI64 (some n) h = h

to_neg-IsI64 : (o : Option ℕ) → IsAtMost (max_i64 + 1) o → IsI64OrNone (to_neg o)
to_neg-IsI64 none h = tt
to_neg-IsI64 (some zero) h = omega arith
to_neg-IsI64 (some (suc n)) h = omega arith

pub parse_i64-IsI64 : (s : Str) → IsI64OrNone (parse_i64 s)
unfolding parse_i64
parse_i64-IsI64 [] = tt
parse_i64-IsI64 (c ∷ s) = elim (Bool-cases (c == b'-')) [
  | inl e ↦
      rw e (to_neg-IsI64 (scan_digits 10 (max_i64 + 1) s) (scan_digits-IsAtMost 10 (max_i64 + 1) s))
  | inr e ↦ rw e (elim (Bool-cases (c == b'+')) [
    | inl f ↦ rw f (to_pos-IsI64 (scan_digits 10 max_i64 s) (scan_digits-IsAtMost 10 max_i64 s))
    | inr f ↦ rw f (
        to_pos-IsI64 (scan 10 max_i64 0 (c ∷ s)) (scan-IsAtMost 10 max_i64 0 (c ∷ s) (omega arith)))
  ])
]
