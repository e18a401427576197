-- ===== src/Text/Decimal.antt =====
-- A number in a template string, and what the paths of the proxy read from it.
use microsanbox_cloud.Prelude.{
  ℕ, zero, suc, ◌+◌, ◌-◌, ◌*◌, ◌/◌, ◌%◌, ◌<◌, ◌≡◌, refl, ap, Bool, ◌&&◌, true, inl, inr, Text, [],
  ◌∷◌, arith, ltb, leb, codes, if◌then◌else◌, truthy, Bool-cases,
}

-- The digits of a number, put before a text. The first argument bounds the digits.
unfoldable pub digits_before : ℕ → ℕ → Text → Text
digits_before zero n out = out
digits_before (suc k) n out =
    let rest = digits_before k (n / 10) ((b'0' + n % 10) ∷ out) in
    if ltb n 10 then (b'0' + n) ∷ out else rest

-- `${n}`: a number has no more digits than its successor is large.
unfoldable pub decimal : ℕ → Text
unfolding digits_before
decimal n = digits_before (suc n) n []

-- `\d+`, and its number.
unfoldable pub all_digits : Text → Bool
all_digits [] = true
all_digits (c ∷ s) = leb b'0' c && leb c b'9' && all_digits s

unfoldable pub number_from : ℕ → Text → ℕ
number_from n [] = n
number_from n (c ∷ s) = number_from (n * 10 + (c - b'0')) s

digits_before-number :
    (k n : ℕ) (out : Text) → n < k → number_from 0 (digits_before k n out) ≡ number_from n out
unfolding digits_before number_from
digits_before-number zero n out h = absurd (omega (arith, h))
digits_before-number (suc k) n out h = elim (Bool-cases (ltb n 10)) [
  | inl e ↦
      let lead : 0 + (48 + n - 48) ≡ n = omega arith in rw e (ap (λ m. number_from m out) lead)
  | inr e ↦
      let last : n / 10 * 10 + (b'0' + n % 10 - b'0') ≡ n = omega arith in
      let shorter : n / 10 < k = ground (arith, h, e) in
      rw (e, digits_before-number k (n / 10) ((b'0' + n % 10) ∷ out) shorter, last) refl
]

digits_before-all :
    (k n : ℕ) (out : Text)
    → n < k
    → all_digits out ≡ true
    → all_digits (digits_before k n out) ≡ true
unfolding digits_before all_digits
digits_before-all zero n out h all = all
digits_before-all (suc k) n out h all = elim (Bool-cases (ltb n 10)) [
  | inl e ↦ rw (e, all) (ground (arith, e))
  | inr e ↦
      let low : leb b'0' (b'0' + n % 10) ≡ true = ground arith in
      let high : leb (b'0' + n % 10) b'9' ≡ true = ground arith in
      rw e (
        digits_before-all k (n / 10) ((b'0' + n % 10) ∷ out) (ground (arith, h, e))
          (rw (low, high, all) refl))
]

digits_before-truthy :
    (k n : ℕ) (out : Text) → truthy out ≡ true → truthy (digits_before k n out) ≡ true
unfolding digits_before
digits_before-truthy zero n out h = h
digits_before-truthy (suc k) n out h = elim (Bool-cases (ltb n 10)) [
  | inl e ↦ rw e refl
  | inr e ↦ rw e (digits_before-truthy k (n / 10) ((b'0' + n % 10) ∷ out) refl)
]

-- A number is read back from its print, which is not empty and has decimal digits only.
pub decimal-number : (n : ℕ) → number_from 0 (decimal n) ≡ n
unfolding decimal number_from
decimal-number n = digits_before-number (suc n) n [] (omega arith)

pub decimal-digits : (n : ℕ) → all_digits (decimal n) ≡ true
unfolding decimal all_digits
decimal-digits n = digits_before-all (suc n) n [] (omega arith) refl

pub decimal-truthy : (n : ℕ) → truthy (decimal n) ≡ true
unfolding decimal digits_before
decimal-truthy n = elim (Bool-cases (ltb n 10)) [
  | inl e ↦ rw e refl
  | inr e ↦ rw e (digits_before-truthy n (n / 10) ((b'0' + n % 10) ∷ []) refl)
]

printed : decimal 8080 ≡ codes "8080"
unfolding decimal
printed = refl
