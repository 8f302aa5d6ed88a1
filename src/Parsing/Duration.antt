-- ===== src/Parsing/Duration.antt =====
-- time.ParseDuration.
use pulse_notify.Prelude.{
  ℕ, zero, suc, ◌+◌, ◌-◌, ◌*◌, ◌/◌, ◌%◌, ◌^◌, ℤ, pos, negsuc, Bool, true, false, ◌||◌, not, Option,
  none, some, [], ◌∷◌, length, ltb, ◌==◌, if◌then◌else◌, Text, text_eq, codes,
}
use pulse_notify.Errors.{Error, other, Result, ok, err}
use pulse_notify.Parsing.Atoi.{is_digit}

-- The errors leave out the text that the code quotes in them.
abbrev pub invalid_duration : Error
invalid_duration = other (codes "time: invalid duration")

abbrev pub missing_unit : Error
missing_unit = other (codes "time: missing unit in duration")

abbrev pub unknown_unit : Error
unknown_unit = other (codes "time: unknown unit in duration")

abbrev pub half : ℕ
half = 2 ^ 63

abbrev pub uint64_mod : ℕ
uint64_mod = 2 ^ 64

-- leadingInt: the digits at the front after `x`, with the rest, or none on overflow.
unfoldable pub leading_int : ℕ → Text → Option (ℕ × Text)
leading_int x [] = some (x, [])
leading_int x (c ∷ s) =
    let x1 = x * 10 + (c - 48) in
    let rest = leading_int x1 s in
    if is_digit c
    then (if ltb (half / 10) x then none else if ltb half x1 then none else rest)
    else some (x, c ∷ s)

-- leadingFraction: the digits at the front, their count, and the rest; digits past an overflow are
-- passed over.
unfoldable pub leading_fraction : ℕ → ℕ → Bool → Text → ℕ × ℕ × Text
leading_fraction x scale overflow [] = (x, scale, [])
leading_fraction x scale overflow (c ∷ s) =
    let x1 = x * 10 + (c - 48) in
    let stop = overflow || ltb ((half - 1) / 10) x || ltb half x1 in
    let rest =
      if stop then leading_fraction x scale true s else leading_fraction x1 (scale + 1) false s in
    if is_digit c then rest else (x, scale, c ∷ s)

-- The text up to the next digit or period, and the rest.
unfoldable pub take_unit : Text → Text × Text
take_unit [] = ([], [])
take_unit (c ∷ s) =
    let r = take_unit s in if c == 46 || is_digit c then ([], c ∷ s) else (c ∷ r.0, r.1)

-- unitMap, in nanoseconds; the letter of a microsecond is U+00B5 or U+03BC or "u".
unfoldable pub unit_of : Text → Option ℕ
unfolding text_eq
unit_of u =
    if text_eq u (codes "ns")
    then some 1
    else if text_eq u (codes "us") || text_eq u (0xb5 ∷ codes "s") || text_eq u (0x3bc ∷ codes "s")
    then some 1000
    else if text_eq u (codes "ms")
    then some 1000000
    else if text_eq u (codes "s")
    then some 1000000000
    else if text_eq u (codes "m")
    then some 60000000000
    else if text_eq u (codes "h")
    then some 3600000000000
    else none

abbrev pub first_is : (ℕ → Bool) → Text → Bool
first_is test [] = false
first_is test (c ∷ s) = test c

-- (\.[0-9]*)? at the front: the digits and their count, the rest, and whether there was a digit.
abbrev pub fraction_part : Text → (ℕ × ℕ) × Text × Bool
fraction_part [] = ((0, 0), [], false)
fraction_part (c ∷ s) =
    if c == 46
    then (let (f, scale, rest) = leading_fraction 0 0 false s in
        ((f, scale), rest, not (length s == length rest)))
    else ((0, 0), c ∷ s, false)

-- Floating-point numbers are a parameter: `fraction f k unit` is uint64(float64(f) * (float64(unit) /
-- scale)), with the scale 10^k.
module _ (fraction : ℕ → ℕ → ℕ → ℕ) where
  -- The nanoseconds of `v` and a fraction of the unit; none on overflow.
  abbrev pub in_unit : ℕ → ℕ × ℕ → ℕ → Option ℕ
  in_unit v (f, k) unit =
      if ltb (half / unit) v
      then none
      else if ltb 0 f
      then (let n = (v * unit + fraction f k unit) % uint64_mod in
          if ltb half n then none else some n)
      else some (v * unit)

  abbrev pub sum_of : ℕ → Option ℕ → Option ℕ
  sum_of d none = none
  sum_of d (some n) = let sum = (d + n) % uint64_mod in if ltb half sum then none else some sum

  -- One number with its unit at the front of the text, added to `d`.
  unfoldable pub component : ℕ → Text → Result (ℕ × Text)
  unfolding leading_int leading_fraction take_unit unit_of
  component d s = elim (first_is (λ c. c == 46 || is_digit c) s) [
    | false ↦ err invalid_duration
    | true ↦ elim (leading_int 0 s) [
      | none ↦ err invalid_duration
      | some (v, s1) ↦
          let pre = not (length s == length s1) in
          let (f, s2, post) = fraction_part s1 in
          elim (pre || post) [
            | false ↦ err invalid_duration
            | true ↦
                let (u, s3) = take_unit s2 in
                elim (text_eq u []) [
                  | true ↦ err missing_unit
                  | false ↦ elim (unit_of u) [
                    | none ↦ err unknown_unit
                    | some unit ↦ elim (sum_of d (in_unit v f unit)) [
                      | none ↦ err invalid_duration
                      | some d1 ↦ ok (d1, s3)
                    ]
                  ]
                ]
          ]
    ]
  ]

  -- The loop over the components, with fuel; none means that the fuel ran out.
  unfoldable pub components : ℕ → ℕ → Text → Option (Result ℕ)
  unfolding component
  components fuel d [] = some (ok d)
  components zero d (c ∷ s) = none
  components (suc fuel) d (c ∷ s) = elim (component d (c ∷ s)) [
    | err e ↦ some (err e)
    | ok (d1, rest) ↦ components fuel d1 rest
  ]

  abbrev negated : ℕ → ℤ
  negated zero = pos 0
  negated (suc n) = negsuc n

  abbrev pub with_sign : Bool → ℕ → Result ℤ
  with_sign true d = ok (negated d)
  with_sign false d = if ltb (half - 1) d then err invalid_duration else ok (pos d)

  abbrev pub signed_result : Bool → Option (Result ℕ) → Option (Result ℤ)
  signed_result neg none = none
  signed_result neg (some (err e)) = some (err e)
  signed_result neg (some (ok d)) = some (with_sign neg d)

  -- The part after the sign. Each component takes one code point at least, so the length of the
  -- text is fuel enough.
  unfoldable pub unsigned_duration : Bool → Text → Option (Result ℤ)
  unfolding components text_eq
  unsigned_duration neg s =
      if text_eq s (codes "0")
      then some (ok (pos 0))
      else if text_eq s []
      then some (err invalid_duration)
      else signed_result neg (components (length s) 0 s)

  -- ParseDuration, or none if the fuel ran out.
  unfoldable pub parse_duration : Text → Option (Result ℤ)
  unfolding unsigned_duration
  parse_duration [] = some (err invalid_duration)
  parse_duration (c ∷ s) =
      if c == 45
      then unsigned_duration true s
      else if c == 43
      then unsigned_duration false s
      else unsigned_duration false (c ∷ s)
