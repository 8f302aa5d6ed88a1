-- ===== src/Parsing/Digits.antt =====
-- Numbers in decimal digits, as fmt writes them, are read back.
use pulse_notify.Prelude.{
  ℕ, zero, suc, ◌+◌, ◌/◌, ◌%◌, ◌<◌, ◌≡◌, ◌≢◌, refl, inl, inr, Bool-cases, some, [], ◌∷◌, arith, ltb,
  Text, decimal, decimal_from,
}
use pulse_notify.Parsing.Atoi.{digits_from, digits, in_range, negative_in_range, atoi}

-- The digits that `decimal_from` puts in front of `acc` are read as the number.
digits_from-decimal_from :
    (f n : ℕ) (acc : Text) → n < f → digits_from 0 (decimal_from f n acc) ≡ digits_from n acc
unfolding digits_from decimal_from
digits_from-decimal_from zero n acc h = absurd (omega arith)
digits_from-decimal_from (suc f) n acc h = elim (Bool-cases (ltb n 10)) [
  | inl small ↦ ground arith
  | inr large ↦ ground (arith, digits_from-decimal_from f (n / 10) ((48 + n % 10) ∷ acc))
]

decimal_from-nonempty : (f n c : ℕ) (acc : Text) → decimal_from f n (c ∷ acc) ≢ []
unfolding decimal_from
decimal_from-nonempty zero n c acc e = cc
decimal_from-nonempty (suc f) n c acc e =
    ground (arith, decimal_from-nonempty f (n / 10) (48 + n % 10) (c ∷ acc))

pub decimal-nonempty : (n : ℕ) → decimal n ≢ []
unfolding decimal decimal_from
decimal-nonempty n e = ground (arith, decimal_from-nonempty n (n / 10) (48 + n % 10) [])

digits_nonempty : (s : Text) → s ≢ [] → digits s ≡ digits_from 0 s
digits_nonempty [] h = absurd (h refl)
digits_nonempty (c ∷ s) h = refl

pub digits-decimal : (n : ℕ) → digits (decimal n) ≡ some n
unfolding decimal digits_from
digits-decimal n =
    rw
      (
        digits_nonempty (decimal n) (decimal-nonempty n),
        digits_from-decimal_from (suc n) n [] (omega arith),
      )
      refl

-- A text of digits has no sign.
pub atoi_unsigned : (s : Text) (n : ℕ) → digits s ≡ some n → atoi s ≡ in_range (some n)
unfolding atoi digits_from
atoi_unsigned [] n h = cc
atoi_unsigned (c ∷ s) n h = ground arith

pub atoi_negative :
    (s : Text) (n : ℕ) → digits s ≡ some n → atoi (45 ∷ s) ≡ negative_in_range (some n)
unfolding atoi
atoi_negative s n h = ground arith
