-- ===== src/Parsing/Bounds.antt =====
-- That the numbers and durations that are read fit in 64 bits.
use pulse_notify.Prelude.{
  ℕ, zero, suc, ◌-◌, ◌≤◌, ℤ, pos, negsuc, IsInt64, ◌≡◌, refl, subst, length, inl, inr, Bool, true,
  false, Bool-cases, Option, none, some, [], ◌∷◌, arith, leb, ltb, ◌==◌, Text, text_eq,
}
use pulse_notify.Errors.{Result, ok, err, Result-cases}
use pulse_notify.Parsing.Atoi.{atoi, digits, in_range, negative_in_range}
use pulse_notify.Parsing.Duration.{
  sum_of, component, components, unsigned_duration, parse_duration, half, signed_result,
}

in_range-IsInt64 : (o : Option ℕ) (v : ℤ) → in_range o ≡ some v → IsInt64 v
in_range-IsInt64 none v h = cc
in_range-IsInt64 (some n) v h = elim (Bool-cases (ltb n half)) [
  | inl below ↦ let same : pos n ≡ v = ground arith in subst IsInt64 same (ground arith)
  | inr above ↦ absurd (ground arith)
]

negative_in_range-IsInt64 : (o : Option ℕ) (v : ℤ) → negative_in_range o ≡ some v → IsInt64 v
negative_in_range-IsInt64 none v h = cc
negative_in_range-IsInt64 (some zero) v h =
    let same : pos 0 ≡ v = ground arith in subst IsInt64 same (omega arith)
negative_in_range-IsInt64 (some (suc n)) v h = elim (Bool-cases (leb (suc n) half)) [
  | inl below ↦ let same : negsuc n ≡ v = ground arith in subst IsInt64 same (ground arith)
  | inr above ↦ absurd (ground arith)
]

pub atoi-IsInt64 : (s : Text) (v : ℤ) → atoi s ≡ some v → IsInt64 v
unfolding atoi
atoi-IsInt64 [] v h = cc
atoi-IsInt64 (c ∷ s) v h = elim (Bool-cases (c == 45)) [
  | inl minus ↦ negative_in_range-IsInt64 (digits s) v (ground arith)
  | inr other ↦ elim (Bool-cases (c == 43)) [
    | inl plus ↦ in_range-IsInt64 (digits s) v (ground arith)
    | inr digit ↦ in_range-IsInt64 (digits (c ∷ s)) v (ground arith)
  ]
]

module _ (fraction : ℕ → ℕ → ℕ → ℕ) where
  sum_of-fits : (d : ℕ) (o : Option ℕ) (sum : ℕ) → sum_of fraction d o ≡ some sum → sum ≤ half
  sum_of-fits d none sum h = cc
  sum_of-fits d (some n) sum h = ground arith

  component-fits :
      (d : ℕ) (s : Text) (d1 : ℕ) (rest : Text) → component fraction d s ≡ ok (d1, rest) → d1 ≤ half
  unfolding component
  component-fits d s d1 rest h = ground (arith, sum_of-fits d)

  components-fits :
      (fuel d : ℕ) (s : Text) (v : ℕ)
      → d ≤ half
      → components fraction fuel d s ≡ some (ok v)
      → v ≤ half
  unfolding components
  components-fits fuel d [] v small h = ground arith
  components-fits zero d (c ∷ s) v small h = cc
  components-fits (suc fuel) d (c ∷ s) v small h =
      elim (Result-cases (component fraction d (c ∷ s))) [
        | inr (e, failed) ↦ absurd (ground arith)
        | inl ((d1, rest), read) ↦
            components-fits fuel d1 rest v (component-fits d (c ∷ s) d1 rest read) (ground arith)
      ]

  signed_result-IsInt64 :
      (neg : Bool) (o : Option (Result ℕ)) (v : ℤ)
      → ((n : ℕ) → o ≡ some (ok n) → n ≤ half)
      → signed_result fraction neg o ≡ some (ok v)
      → IsInt64 v
  signed_result-IsInt64 neg none v small h = cc
  signed_result-IsInt64 neg (some (err e)) v small h = cc
  signed_result-IsInt64 true (some (ok zero)) v small h =
      let same : pos 0 ≡ v = ground arith in subst IsInt64 same (omega arith)
  signed_result-IsInt64 true (some (ok (suc n))) v small h =
      let same : negsuc n ≡ v = ground arith in
      subst IsInt64 same (omega (arith, small (suc n) refl))
  signed_result-IsInt64 false (some (ok n)) v small h = elim (Bool-cases (ltb (half - 1) n)) [
    | inl above ↦ absurd (ground arith)
    | inr below ↦ let same : pos n ≡ v = ground arith in subst IsInt64 same (ground arith)
  ]

  unsigned_duration-IsInt64 :
      (neg : Bool) (s : Text) (v : ℤ) → unsigned_duration fraction neg s ≡ some (ok v) → IsInt64 v
  unfolding unsigned_duration
  unsigned_duration-IsInt64 neg s v h = elim (Bool-cases (text_eq s (48 ∷ []))) [
    | inl zero_text ↦ let same : pos 0 ≡ v = ground arith in subst IsInt64 same (omega arith)
    | inr more ↦ elim (Bool-cases (text_eq s [])) [
      | inl empty ↦ absurd (ground arith)
      | inr there ↦
          signed_result-IsInt64 neg (components fraction (length s) 0 s) v
            (λ n. components-fits (length s) 0 s n (omega arith)) (ground arith)
    ]
  ]

  pub parse_duration-IsInt64 :
      (s : Text) (v : ℤ) → parse_duration fraction s ≡ some (ok v) → IsInt64 v
  unfolding parse_duration
  parse_duration-IsInt64 [] v h = cc
  parse_duration-IsInt64 (c ∷ s) v h = elim (Bool-cases (c == 45)) [
    | inl minus ↦ unsigned_duration-IsInt64 true s v (ground arith)
    | inr other ↦ elim (Bool-cases (c == 43)) [
      | inl plus ↦ unsigned_duration-IsInt64 false s v (ground arith)
      | inr digit ↦ unsigned_duration-IsInt64 false (c ∷ s) v (ground arith)
    ]
  ]
