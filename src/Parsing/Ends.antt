-- ===== src/Parsing/Ends.antt =====
-- That the loop of time.ParseDuration ends.
use pulse_notify.Prelude.{
  ℕ, zero, suc, ◌+◌, ◌-◌, ◌*◌, ◌≤◌, ◌<◌, ◌≡◌, ◌≢◌, inl, inr, Bool, true, false, none, some,
  Option-cases, [], ◌∷◌, arith, length, Text, text_eq,
}
use pulse_notify.Errors.{ok, Result-cases}
use pulse_notify.Parsing.Duration.{
  leading_int, leading_fraction, take_unit, fraction_part, component, components, parse_duration,
}

leading_int-length :
    (x : ℕ) (s : Text) (v : ℕ) (rest : Text)
    → leading_int x s ≡ some (v, rest)
    → length rest ≤ length s
unfolding leading_int
leading_int-length x [] v rest h = ground arith
leading_int-length x (c ∷ s) v rest h =
    ground (arith, leading_int-length (x * 10 + (c - 48)) s v rest)

leading_fraction-length :
    (x scale : ℕ) (overflow : Bool) (s : Text)
    → length (leading_fraction x scale overflow s).2 ≤ length s
unfolding leading_fraction
leading_fraction-length x scale overflow [] = omega arith
leading_fraction-length x scale overflow (c ∷ s) = ground (
  arith,
  leading_fraction-length x scale true s,
  leading_fraction-length (x * 10 + (c - 48)) (scale + 1) false s,
)

fraction_part-length : (s : Text) → length (fraction_part s).1 ≤ length s
fraction_part-length [] = omega arith
fraction_part-length (c ∷ s) = ground (arith, leading_fraction-length 0 0 false s)

take_unit-length : (s : Text) → length (take_unit s).0 + length (take_unit s).1 ≡ length s
unfolding take_unit
take_unit-length [] = omega arith
take_unit-length (c ∷ s) = ground (arith, take_unit-length s)

positive_length : (s : Text) → text_eq s [] ≡ false → 0 < length s
unfolding text_eq
positive_length [] h = cc
positive_length (c ∷ s) h = omega arith

module _ (fraction : ℕ → ℕ → ℕ → ℕ) where
  -- A component takes a part of the text.
  component-length :
      (d : ℕ) (s : Text) (d1 : ℕ) (rest : Text)
      → component fraction d s ≡ ok (d1, rest)
      → length rest < length s
  unfolding component
  component-length d s d1 rest h = elim (Option-cases (leading_int 0 s)) [
    | inl over ↦ absurd (ground arith)
    | inr ((v, s1), read) ↦
        let s2 = (fraction_part s1).1 in
        let same : (take_unit s2).1 ≡ rest = ground arith in
        let unit_there : text_eq (take_unit s2).0 [] ≡ false = ground arith in
        ground (
          arith,
          leading_int-length 0 s v s1 read,
          fraction_part-length s1,
          take_unit-length s2,
          positive_length (take_unit s2).0 unit_there,
        )
  ]

  components-ne-none :
      (fuel d : ℕ) (s : Text) → length s ≤ fuel → components fraction fuel d s ≢ none
  unfolding components
  components-ne-none fuel d [] h e = cc
  components-ne-none zero d (c ∷ s) h e = omega arith
  components-ne-none (suc fuel) d (c ∷ s) h e = elim (Result-cases (component fraction d (c ∷ s))) [
    | inr (x, failed) ↦ ground arith
    | inl ((d1, rest), read) ↦
        components-ne-none fuel d1 rest (omega (arith, component-length d (c ∷ s) d1 rest read))
          (ground arith)
  ]

  -- ParseDuration ends: the length of its text is fuel enough for its loop.
  pub parse_duration-ne-none : (s : Text) → parse_duration fraction s ≢ none
  unfolding parse_duration
  parse_duration-ne-none [] e = cc
  parse_duration-ne-none (c ∷ s) e = ground (
    arith,
    components-ne-none (length s) 0 s (omega arith),
    components-ne-none (length (c ∷ s)) 0 (c ∷ s) (omega arith),
  )
