-- ===== src/Text/Split.antt =====
-- `split` at a text without the separator in it.
use microsanbox_cloud.Prelude.{
  ◌≡◌, refl, ℕ, true, false, List, [], ◌∷◌, ◌++◌, Text, ◌==◌, All, arith, Bool-cases, inl, inr,
}
use microsanbox_cloud.Text.{split}

split_nonempty : (c : ℕ) (s : Text) → (p : Text) × (ps : List Text) × (split c s ≡ p ∷ ps)
unfolding split
split_nonempty c [] = ([], [], refl)
split_nonempty c (d ∷ s) =
    let (p, ps, e) = split_nonempty c s in
    elim (Bool-cases (d == c)) [
      | inl f ↦ ([], p ∷ ps, rw (e, f) refl)
      | inr f ↦ (d ∷ p, ps, rw (e, f) refl)
    ]

abbrev pub IsSegment : ℕ → Text → Type 0
IsSegment c s = All (λ d. (d == c) ≡ false) s

pub split_all : (c : ℕ) (s : Text) → IsSegment c s → split c s ≡ s ∷ []
unfolding split
split_all c [] h = refl
split_all c (d ∷ s) (x, h) = rw (split_all c s h, x) refl

pub split-append : (c : ℕ) (s t : Text) → IsSegment c s → split c (s ++ c ∷ t) ≡ s ∷ split c t
unfolding split
split-append c [] t h =
    let (p, ps, e) = split_nonempty c t in
    let same : (c == c) ≡ true = ground arith in rw (e, same) refl
split-append c (d ∷ s) t (x, h) = rw (split-append c s t h, x) refl
