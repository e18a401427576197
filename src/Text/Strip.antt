-- ===== src/Text/Strip.antt =====
-- What is left of a string when a class of code units is removed at its ends.
use microsanbox_cloud.Prelude.{
  ℕ, ◌≡◌, refl, ap, Bool, false, ◌&&◌, inl, inr, [], ◌∷◌, Text, arith, Bool-cases, All, is_empty,
  ◌≤◌, length, ◌≢◌,
}
use microsanbox_cloud.Text.{strip_start, strip_end}

-- The first, and the last, code unit is outside the class.
abbrev pub StartsOutside : (ℕ → Bool) → Text → Type 0
StartsOutside p [] = Unit
StartsOutside p (c ∷ s) = p c ≡ false

abbrev pub EndsOutside : (ℕ → Bool) → Text → Type 0
EndsOutside p [] = Unit
EndsOutside p (c ∷ []) = p c ≡ false
EndsOutside p (c ∷ d ∷ s) = EndsOutside p (d ∷ s)

module _ (p : ℕ → Bool) where
  pub strip_start-StartsOutside : (s : Text) → StartsOutside p (strip_start p s)
  unfolding strip_start
  strip_start-StartsOutside [] = tt
  strip_start-StartsOutside (c ∷ s) = ground (arith, strip_start-StartsOutside s)

  EndsOutside-cons :
      (c : ℕ) (s : Text) → EndsOutside p s → (s ≡ [] → p c ≡ false) → EndsOutside p (c ∷ s)
  EndsOutside-cons c [] h k = k refl
  EndsOutside-cons c (d ∷ s) h k = h

  pub strip_end-EndsOutside : (s : Text) → EndsOutside p (strip_end p s)
  unfolding strip_end
  strip_end-EndsOutside [] = tt
  strip_end-EndsOutside (c ∷ s) = elim (Bool-cases (p c && is_empty (strip_end p s))) [
    | inl e ↦ rw e tt
    | inr e ↦ rw e (
        EndsOutside-cons c (strip_end p s) (strip_end-EndsOutside s)
          (λ n. ground (arith, ap (is_empty {A = ℕ}) n)))
  ]

  pub strip_start_of_StartsOutside : (s : Text) → StartsOutside p s → strip_start p s ≡ s
  unfolding strip_start
  strip_start_of_StartsOutside [] h = refl
  strip_start_of_StartsOutside (c ∷ s) h = rw h

  pub strip_end_of_EndsOutside : (s : Text) → EndsOutside p s → strip_end p s ≡ s
  unfolding strip_end
  strip_end_of_EndsOutside [] h = refl
  strip_end_of_EndsOutside (c ∷ []) h = rw h
  strip_end_of_EndsOutside (c ∷ d ∷ s) h = ground (arith, strip_end_of_EndsOutside (d ∷ s) h)

  pub strip_end-StartsOutside : (s : Text) → StartsOutside p s → StartsOutside p (strip_end p s)
  unfolding strip_end
  strip_end-StartsOutside [] h = tt
  strip_end-StartsOutside (c ∷ s) h = rw h h

  -- A string that starts outside the class is not emptied at its end.
  pub strip_end-ne-nil : (c : ℕ) (s : Text) → p c ≡ false → strip_end p (c ∷ s) ≢ []
  unfolding strip_end
  strip_end-ne-nil c s h = ground arith

  pub length-strip_end-le : (s : Text) → length (strip_end p s) ≤ length s
  unfolding strip_end
  length-strip_end-le [] = omega arith
  length-strip_end-le (c ∷ s) = ground (arith, length-strip_end-le s)

  pub length-strip_start-le : (s : Text) → length (strip_start p s) ≤ length s
  unfolding strip_start
  length-strip_start-le [] = omega arith
  length-strip_start-le (c ∷ s) = ground (arith, length-strip_start-le s)

module _ {κ} (p : ℕ → Bool) (P : ℕ → Type κ) where
  pub All-strip_start : (s : Text) → All P s → All P (strip_start p s)
  unfolding strip_start
  All-strip_start [] h = tt
  All-strip_start (c ∷ s) (x, h) = elim (Bool-cases (p c)) [
    | inl e ↦ rw e (All-strip_start s h)
    | inr e ↦ rw e (x, h)
  ]

  pub All-strip_end : (s : Text) → All P s → All P (strip_end p s)
  unfolding strip_end
  All-strip_end [] h = tt
  All-strip_end (c ∷ s) (x, h) = elim (Bool-cases (p c && is_empty (strip_end p s))) [
    | inl e ↦ rw e tt
    | inr e ↦ rw e (x, All-strip_end s h)
  ]
