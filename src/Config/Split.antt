-- ===== src/Config/Split.antt =====
-- splitAndTrim of internal/config/config.go.
use pulse_notify.Prelude.{
  ℕ, ◌≡◌, ◌≢◌, refl, ap, ◌∙◌, true, false, Bool-cases, inl, inr, arith, List, [], ◌∷◌, ◌++◌, map,
  ◌==◌, All, All-imp, Text, text_eq, text_eq_iff, trim_space,
}
use pulse_notify.Config.{split_on, keep_trimmed, split_and_trim}

-- A text that does not hold a code point.
abbrev pub IsFreeOf : ℕ → Text → Type 0
IsFreeOf sep s = All (λ c. (c == sep) ≡ false) s

-- strings.Join, with a separator of one code point.
abbrev pub join_with : ℕ → List Text → Text
join_with sep [] = []
join_with sep (w ∷ []) = w
join_with sep (w ∷ v ∷ ws) = w ++ (sep ∷ join_with sep (v ∷ ws))

split_on-free : (sep : ℕ) (w : Text) → IsFreeOf sep w → split_on sep w ≡ w ∷ []
unfolding split_on
split_on-free sep [] h = refl
split_on-free sep (c ∷ w) (here, rest) = rw (here, split_on-free sep w rest) refl

split_on-append :
    (sep : ℕ) (w s : Text) → IsFreeOf sep w → split_on sep (w ++ (sep ∷ s)) ≡ w ∷ split_on sep s
unfolding split_on
split_on-append sep [] s h = let same : (sep == sep) ≡ true = ground arith in rw same refl
split_on-append sep (c ∷ w) s (here, rest) = rw (here, split_on-append sep w s rest) refl

split_on-join_with :
    (sep : ℕ) (w : Text) (ws : List Text)
    → All (IsFreeOf sep) (w ∷ ws)
    → split_on sep (join_with sep (w ∷ ws)) ≡ w ∷ ws
split_on-join_with sep w [] (free, rest) = split_on-free sep w free
split_on-join_with sep w (v ∷ ws) (free, rest) =
    split_on-append sep w (join_with sep (v ∷ ws)) free
    ∙ ap (λ tail. w ∷ tail) (split_on-join_with sep v ws rest)

-- An entry of the list: it holds no comma and, between white space, something.
pub record IsEntry (s : Text) : Type 0 where
  pub no_comma : IsFreeOf b',' s
  pub there : text_eq (trim_space s) [] ≡ false

keep_trimmed-entries : (ws : List Text) → All IsEntry ws → keep_trimmed ws ≡ map trim_space ws
keep_trimmed-entries [] h = refl
keep_trimmed-entries (w ∷ ws) (e, rest) = rw (e.there, keep_trimmed-entries ws rest) refl

-- A list of entries, joined with commas, is split into the entries without the white space around
-- them, in order: whatever white space stands around an entry in the text.
pub split_and_trim-join_with :
    (w : Text) (ws : List Text)
    → All IsEntry (w ∷ ws)
    → split_and_trim (join_with b',' (w ∷ ws)) ≡ map trim_space (w ∷ ws)
unfolding split_and_trim
split_and_trim-join_with w ws h =
    ap keep_trimmed
      (split_on-join_with b',' w ws (All-imp (λ s (e : IsEntry s). e.no_comma) (w ∷ ws) h))
    ∙ keep_trimmed-entries (w ∷ ws) h

keep_trimmed-AreThere :
    (ws : List Text) → All (λ t. (w : Text) × (t ≡ trim_space w) × (t ≢ [])) (keep_trimmed ws)
keep_trimmed-AreThere [] = tt
keep_trimmed-AreThere (w ∷ ws) = elim (Bool-cases (text_eq (trim_space w) [])) [
  | inl empty ↦ rw empty (keep_trimmed-AreThere ws)
  | inr there ↦
      rw there
        ((w, refl, λ e. cc (there, (text_eq_iff (trim_space w) []).1 e)), keep_trimmed-AreThere ws)
]

-- No entry of the result is empty, and each one is a text without the white space around it.
pub split_and_trim-AreThere :
    (csv : Text) → All (λ t. (w : Text) × (t ≡ trim_space w) × (t ≢ [])) (split_and_trim csv)
unfolding split_and_trim
split_and_trim-AreThere csv = keep_trimmed-AreThere (split_on b',' csv)
