-- ===== src/Identity/Names.antt =====
-- The names under which sandboxes and volumes are known to Microsandbox.
use microsanbox_cloud.Prelude.{
  ◌≤◌, ◌≡◌, [], ◌∷◌, ◌++◌, Text, arith, length, length-append, ◌⊎◌, length-take, take, some, none,
  Option-cases, inl, inr, leb, ap, Bool-cases,
}
use microsanbox_cloud.Text.Strip.{length-strip_end-le}
use microsanbox_cloud.Identity.{
  is_edge, dash, trim_name, prefixed, normalize_sandbox_id, sandbox_name, volume_name,
}
use microsanbox_cloud.Identity.Laws.{normalize_sandbox_id-fixed_iff, normalize_sandbox_id_idem}

length-trim_name-le : (s : Text) → length (trim_name s) ≤ 120
unfolding trim_name
length-trim_name-le s = elim (Bool-cases (leb (length s) 120)) [
  | inl e ↦ rw e (ground arith)
  | inr e ↦ rw e (omega (arith, length-strip_end-le is_edge (take 120 s), length-take 120 s))
]

trim_name_of_short : (s : Text) → length s ≤ 120 → trim_name s ≡ s
unfolding trim_name
trim_name_of_short s h = ground arith

append_cancel : (p s t : Text) → p ++ s ≡ p ++ t → s ≡ t
append_cancel [] s t h = h
append_cancel (c ∷ p) s t h = append_cancel p s t (cc)

id_length : (v t : Text) → normalize_sandbox_id v ≡ some t → length t ≤ 64
id_length v t h = ((normalize_sandbox_id-fixed_iff t).0 (normalize_sandbox_id_idem v t h)).short

module _ (before : Text) where
  sandbox_name-eq :
      (v t : Text)
      → normalize_sandbox_id v ≡ some t
      → length before ≤ 55
      → sandbox_name before v ≡ some (before ++ dash ∷ t)
  unfolding sandbox_name prefixed
  sandbox_name-eq v t h small = rw h (
      ap some
        (trim_name_of_short _ (omega (arith, length-append before (dash ∷ t), id_length v t h))))

  -- Under a prefix of at most 55 code units, two sandboxes have the same Microsandbox name only if
  -- their ids normalise alike.
  pub sandbox_name-injective :
      (v w n : Text)
      → length before ≤ 55
      → sandbox_name before v ≡ some n
      → sandbox_name before w ≡ some n
      → normalize_sandbox_id v ≡ normalize_sandbox_id w
  unfolding sandbox_name prefixed
  sandbox_name-injective v w n small hv hw = elim (Option-cases (normalize_sandbox_id v)) [
    | inl e ↦ absurd (let k : none ≡ some n = rw e at hv in cc)
    | inr (s, e) ↦ elim (Option-cases (normalize_sandbox_id w)) [
      | inl f ↦ absurd (let k : none ≡ some n = rw f at hw in cc)
      | inr (t, f) ↦
          let a = sandbox_name-eq v s e small in
          let b = sandbox_name-eq w t f small in
          let same : before ++ dash ∷ s ≡ before ++ dash ∷ t = cc in
          let tails : dash ∷ s ≡ dash ∷ t = append_cancel before _ _ same in cc
    ]
  ]

  -- Whatever the prefix, a sandbox's or a volume's Microsandbox name has at most 120 code units.
  pub names_bounded :
      (v n : Text)
      → (sandbox_name before v ≡ some n) ⊎ (volume_name before v ≡ some n)
      → length n ≤ 120
  unfolding sandbox_name volume_name prefixed
  names_bounded v n h = elim (Option-cases (normalize_sandbox_id v)) [
    | inl e ↦ absurd (let k : (none ≡ some n) ⊎ (none ≡ some n) = rw e at h in cases_of k)
    | inr (s, e) ↦
        let k : (some (trim_name (before ++ dash ∷ s)) ≡ some n)
            ⊎ (some (trim_name (before ++ dash ∷ s)) ≡ some n) =
          rw e at h in
        ground (arith, length-trim_name-le (before ++ dash ∷ s))
  ]
    where
      cases_of : (none ≡ some n) ⊎ (none ≡ some n) → ⊥
      cases_of (inl e) = cc
      cases_of (inr e) = cc
