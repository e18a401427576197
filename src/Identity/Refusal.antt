-- ===== src/Identity/Refusal.antt =====
-- The inputs that `normalizeSegment` refuses.
use microsanbox_cloud.Prelude.{
  ℕ, ◌≡◌, refl, Bool, true, false, ◌&&◌, inl, inr, [], ◌∷◌, Text, arith, ◌↔◌, Bool-cases, All,
  is_empty, none,
}
use microsanbox_cloud.Text.{strip_start, strip_end, trim, replace_runs, to_lower_case}
use microsanbox_cloud.Text.Runs.{replace_runs-All}
use microsanbox_cloud.Identity.{
  is_alnum, is_edge, is_foreign, is_dash, dash, clean, normalize_segment, normalize_sandbox_id,
}
use microsanbox_cloud.Identity.Normal.{IsNative, dash-IsNative}
use microsanbox_cloud.Identity.Laws.{is_empty-true}

-- The code units that carry no letter or digit.
abbrev pub Blank : ℕ → Type 0
Blank c = is_alnum c ≡ false

module _ (p : ℕ → Bool) (blank : (c : ℕ) → p c ≡ true → Blank c) where
  dash-Blank : Blank dash
  unfolding is_alnum
  dash-Blank = refl

  Blank-replace_runs : (b : Bool) (s : Text) → All Blank s → All Blank (replace_runs p dash b s)
  unfolding replace_runs
  Blank-replace_runs b [] h = tt
  Blank-replace_runs b (c ∷ s) (x, h) = elim (Bool-cases (p c)) [
    | inl e ↦ elim (Bool-cases b) [
      | inl i ↦ rw (e, i) (Blank-replace_runs true s h)
      | inr o ↦ rw (e, o) (dash-Blank, Blank-replace_runs true s h)
    ]
    | inr e ↦ rw e (x, Blank-replace_runs false s h)
  ]

  Blank-of_replace_runs : (b : Bool) (s : Text) → All Blank (replace_runs p dash b s) → All Blank s
  unfolding replace_runs
  Blank-of_replace_runs b [] h = tt
  Blank-of_replace_runs b (c ∷ s) h = elim (Bool-cases (p c)) [
    | inl e ↦ elim (Bool-cases b) [
      | inl i ↦ (blank c e, Blank-of_replace_runs true s (rw (e, i) at h))
      | inr o ↦
          let k : Blank dash × All Blank (replace_runs p dash true s) = rw (e, o) at h in
          (blank c e, Blank-of_replace_runs true s k.1)
    ]
    | inr e ↦
        let k : Blank c × All Blank (replace_runs p dash false s) = rw e at h in
        (k.0, Blank-of_replace_runs false s k.1)
  ]

edge-Blank : (c : ℕ) → is_edge c ≡ true → Blank c
unfolding is_edge is_alnum
edge-Blank c h = ground arith

Blank-edge : (c : ℕ) → IsNative c → Blank c → is_edge c ≡ true
unfolding is_foreign
Blank-edge c h k = ground arith

foreign-Blank : (c : ℕ) → is_foreign c ≡ true → Blank c
unfolding is_foreign
foreign-Blank c h = ground arith

dash_is_Blank : (c : ℕ) → is_dash c ≡ true → Blank c
unfolding is_dash is_alnum
dash_is_Blank c h = ground arith

-- Only text without a letter or digit is emptied by the two strips.
edges_of_strip_end : (s : Text) → strip_end is_edge s ≡ [] → All (λ c. is_edge c ≡ true) s
unfolding strip_end
edges_of_strip_end [] h = tt
edges_of_strip_end (c ∷ s) h = elim (Bool-cases (is_edge c && is_empty (strip_end is_edge s))) [
  | inl e ↦ (ground arith, edges_of_strip_end s (is_empty-true _ (ground arith)))
  | inr e ↦ let k : c ∷ strip_end is_edge s ≡ [] = rw e at h in cc
]

edges_of_strip :
    (s : Text) → strip_end is_edge (strip_start is_edge s) ≡ [] → All (λ c. is_edge c ≡ true) s
unfolding strip_start
edges_of_strip [] h = tt
edges_of_strip (c ∷ s) h = elim (Bool-cases (is_edge c)) [
  | inl e ↦ (e, edges_of_strip s (rw e at h))
  | inr e ↦ edges_of_strip_end (c ∷ s) (rw e at h)
]

strip_of_edges :
    (s : Text) → All (λ c. is_edge c ≡ true) s → strip_end is_edge (strip_start is_edge s) ≡ []
unfolding strip_start strip_end
strip_of_edges [] h = refl
strip_of_edges (c ∷ s) (x, h) = rw x (strip_of_edges s h)

blanks_of_edges : (s : Text) → All (λ c. is_edge c ≡ true) s → All Blank s
blanks_of_edges [] h = tt
blanks_of_edges (c ∷ s) (x, h) = (edge-Blank c x, blanks_of_edges s h)

edges_of_blanks : (s : Text) → All IsNative s → All Blank s → All (λ c. is_edge c ≡ true) s
edges_of_blanks [] h k = tt
edges_of_blanks (c ∷ s) (x, h) (y, k) = (Blank-edge c x y, edges_of_blanks s h k)

abbrev dashed : Text → Text
dashed v = replace_runs is_foreign dash false (to_lower_case (trim v))

self : (t : Text) → All (λ c. is_foreign c ≡ false → IsNative c) t
self [] = tt
self (c ∷ t) = (λ h. h, self t)

given : (t : Text) → All IsNative t → All (λ c. is_dash c ≡ false → IsNative c) t
given [] h = tt
given (c ∷ t) (x, h) = (λ _. x, given t h)

dashed-IsNative : (v : Text) → All IsNative (replace_runs is_dash dash false (dashed v))
dashed-IsNative v =
    replace_runs-All is_dash IsNative dash false _ dash-IsNative
      (given _ (replace_runs-All is_foreign IsNative dash false _ dash-IsNative (self _)))

clean-eq-nil_iff : (v : Text) → (clean v ≡ []) ↔ All Blank (to_lower_case (trim v))
unfolding clean
clean-eq-nil_iff v = (
  λ h. Blank-of_replace_runs is_foreign foreign-Blank false _ (
      Blank-of_replace_runs is_dash dash_is_Blank false _ (blanks_of_edges _ (edges_of_strip _ h))),
  λ h. strip_of_edges _ (
      edges_of_blanks _ (dashed-IsNative v) (
        Blank-replace_runs is_dash dash_is_Blank false _
          (Blank-replace_runs is_foreign foreign-Blank false _ h))),
)

none_of_nil : (v : Text) → (normalize_segment v ≡ none) ↔ (clean v ≡ [])
unfolding normalize_segment
none_of_nil v = (
  λ h. elim (Bool-cases (is_empty (clean v))) [
    | inl e ↦ is_empty-true _ e
    | inr e ↦ absurd (ground arith)
  ],
  λ h. rw h,
)

-- A sandbox id is refused exactly when its trimmed, lower-cased text has no letter a-z and no
-- digit.
pub normalize_sandbox_id-none_iff :
    (v : Text) → (normalize_sandbox_id v ≡ none) ↔ All Blank (to_lower_case (trim v))
unfolding normalize_sandbox_id
normalize_sandbox_id-none_iff v = (
  λ h. (clean-eq-nil_iff v).0 ((none_of_nil v).0 h),
  λ h. (none_of_nil v).1 ((clean-eq-nil_iff v).1 h),
)
