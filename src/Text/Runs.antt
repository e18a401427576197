-- ===== src/Text/Runs.antt =====
-- Replacing each run of a class of code units by one code unit.
use microsanbox_cloud.Prelude.{
  ℕ, zero, suc, ◌≡◌, refl, ap, Bool, true, false, ◌&&◌, inl, inr, [], ◌∷◌, Text, arith, Bool-cases,
  All, take, is_empty,
}
use microsanbox_cloud.Text.{strip_start, strip_end, replace_runs}

-- No two neighbours are in the class; the flag says that the unit before is in it.
abbrev pub NoDouble : (ℕ → Bool) → Bool → Text → Type 0
NoDouble p inside [] = Unit
NoDouble p inside (c ∷ s) = (p c && inside ≡ false) × NoDouble p (p c) s

module _ (p : ℕ → Bool) where
  pub NoDouble-weaken : (b : Bool) (s : Text) → NoDouble p b s → NoDouble p false s
  NoDouble-weaken b [] h = tt
  NoDouble-weaken b (c ∷ s) (x, h) = (ground arith, h)

  NoDouble-relax : (s : Text) → NoDouble p true s → (b : Bool) → NoDouble p b s
  NoDouble-relax s h true = h
  NoDouble-relax s h false = NoDouble-weaken true s h

  pub replace_runs-NoDouble :
      (r : ℕ) (b : Bool) (s : Text) → p r ≡ true → NoDouble p b (replace_runs p r b s)
  unfolding replace_runs
  replace_runs-NoDouble r b [] h = tt
  replace_runs-NoDouble r b (c ∷ s) h = elim (Bool-cases (p c)) [
    | inl e ↦ elim (Bool-cases b) [
      | inl i ↦ rw (e, i) (replace_runs-NoDouble r true s h)
      | inr o ↦ rw (e, o, h) (refl, replace_runs-NoDouble r true s h)
    ]
    | inr e ↦ rw (e, e) (refl, replace_runs-NoDouble r false s h)
  ]

  pub NoDouble-strip_start :
      (q : ℕ → Bool) (s : Text) → NoDouble p false s → NoDouble p false (strip_start q s)
  unfolding strip_start
  NoDouble-strip_start q [] h = tt
  NoDouble-strip_start q (c ∷ s) h = elim (Bool-cases (q c)) [
    | inl e ↦ rw e (NoDouble-strip_start q s (NoDouble-weaken (p c) s h.1))
    | inr e ↦ rw e h
  ]

  pub NoDouble-strip_end :
      (q : ℕ → Bool) (b : Bool) (s : Text) → NoDouble p b s → NoDouble p b (strip_end q s)
  unfolding strip_end
  NoDouble-strip_end q b [] h = tt
  NoDouble-strip_end q b (c ∷ s) h = elim (Bool-cases (q c && is_empty (strip_end q s))) [
    | inl e ↦ rw e tt
    | inr e ↦ rw e (h.0, NoDouble-strip_end q (p c) s h.1)
  ]

  pub NoDouble-take : (n : ℕ) (b : Bool) (s : Text) → NoDouble p b s → NoDouble p b (take n s)
  NoDouble-take zero b s h = tt
  NoDouble-take (suc n) b [] h = tt
  NoDouble-take (suc n) b (c ∷ s) h = (h.0, NoDouble-take n (p c) s h.1)

  -- Where the class stands for itself and no two of it are neighbours, nothing changes.
  pub replace_runs_of_NoDouble :
      (r : ℕ) (b : Bool) (s : Text)
      → ((c : ℕ) → p c ≡ true → c ≡ r)
      → NoDouble p b s
      → replace_runs p r b s ≡ s
  unfolding replace_runs
  replace_runs_of_NoDouble r b [] same h = refl
  replace_runs_of_NoDouble r b (c ∷ s) same h =
      ground (arith, same c, replace_runs_of_NoDouble r (p c) s same h.1)

  pub replace_runs_of_none :
      (r : ℕ) (b : Bool) (s : Text) → All (λ c. p c ≡ false) s → replace_runs p r b s ≡ s
  unfolding replace_runs
  replace_runs_of_none r b [] h = refl
  replace_runs_of_none r b (c ∷ s) (x, h) =
      rw x (ap (λ t. c ∷ t) (replace_runs_of_none r false s h))

  pub replace_runs-All {κ} :
      (P : ℕ → Type κ) (r : ℕ) (b : Bool) (s : Text)
      → P r
      → All (λ c. p c ≡ false → P c) s
      → All P (replace_runs p r b s)
  unfolding replace_runs
  replace_runs-All P r b [] h k = tt
  replace_runs-All P r b (c ∷ s) h (x, k) = elim (Bool-cases (p c)) [
    | inl e ↦ elim (Bool-cases b) [
      | inl i ↦ rw (e, i) (replace_runs-All P r true s h k)
      | inr o ↦ rw (e, o) (h, replace_runs-All P r true s h k)
    ]
    | inr e ↦ rw e (x e, replace_runs-All P r false s h k)
  ]
