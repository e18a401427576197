-- ===== src/Identity/Laws.antt =====
-- The fixed points of `normalizeSegment`, and the inputs that it refuses.
use microsanbox_cloud.Prelude.{
  ℕ, ◌≤◌, ◌≡◌, refl, ap, true, false, inl, inr, [], ◌∷◌, Text, arith, ◌↔◌, Bool-cases, All, length,
  is_empty, ◌≢◌, some, ◌∙◌, ◌++◌,
}
use microsanbox_cloud.Text.{trim, to_lower_case, lower, is_space}
use microsanbox_cloud.Text.Strip.{
  StartsOutside, EndsOutside, strip_start_of_StartsOutside, strip_end_of_EndsOutside,
}
use microsanbox_cloud.Text.Runs.{replace_runs_of_NoDouble, replace_runs_of_none}
use microsanbox_cloud.Identity.{
  is_edge, is_foreign, is_dash, dash, clean, shorten, normalize_segment, normalize_sandbox_id,
}
use microsanbox_cloud.Identity.Normal.{
  IsNative, IsClean, IsName, clean-IsClean, shorten-IsName, is_empty-false,
}

native_not_space : (c : ℕ) → IsNative c → is_space c ≡ false
unfolding is_foreign is_space
native_not_space c h = ground arith

native-lower : (c : ℕ) → IsNative c → lower c ≡ c ∷ []
unfolding is_foreign lower
native-lower c h = ground arith

to_lower_case_of_native : (s : Text) → All IsNative s → to_lower_case s ≡ s
unfolding to_lower_case
to_lower_case_of_native [] h = refl
to_lower_case_of_native (c ∷ s) (x, h) =
    ap (λ (t : Text). t ++ to_lower_case s) (native-lower c x)
    ∙ ap (λ (t : Text). c ∷ t) (to_lower_case_of_native s h)

native-StartsOutside : (s : Text) → All IsNative s → StartsOutside is_space s
native-StartsOutside [] h = tt
native-StartsOutside (c ∷ s) (x, h) = native_not_space c x

native-EndsOutside : (s : Text) → All IsNative s → EndsOutside is_space s
native-EndsOutside [] h = tt
native-EndsOutside (c ∷ []) (x, h) = native_not_space c x
native-EndsOutside (c ∷ d ∷ s) (x, h) = native-EndsOutside (d ∷ s) h

trim_of_native : (s : Text) → All IsNative s → trim s ≡ s
unfolding trim
trim_of_native s h =
    rw (strip_start_of_StartsOutside is_space s (native-StartsOutside s h))
      (strip_end_of_EndsOutside is_space s (native-EndsOutside s h))

only_dash : (c : ℕ) → is_dash c ≡ true → c ≡ dash
unfolding is_dash
only_dash c h = ground arith

-- The chain of replacements leaves a clean name as it is.
clean_of_IsClean : (s : Text) → IsClean s → clean s ≡ s
unfolding clean
clean_of_IsClean s v =
    rw
      (
        trim_of_native s v.alphabet,
        to_lower_case_of_native s v.alphabet,
        replace_runs_of_none is_foreign dash false s v.alphabet,
        replace_runs_of_NoDouble is_dash dash false s only_dash v.spread,
        strip_start_of_StartsOutside is_edge s v.starts,
      )
      (strip_end_of_EndsOutside is_edge s v.ends)

shorten_of_short : (s : Text) → length s ≤ 64 → shorten s ≡ s
unfolding shorten
shorten_of_short s h = ground arith

pub is_empty-true : (s : Text) → is_empty s ≡ true → s ≡ []
is_empty-true [] h = refl
is_empty-true (c ∷ s) h = cc

ne_nil_of_is_empty : (s : Text) → is_empty s ≡ false → s ≢ []
ne_nil_of_is_empty [] h = λ _. cc
ne_nil_of_is_empty (c ∷ s) h = λ e. cc

some_eq : {s t : Text} → some s ≡ some t → s ≡ t
some_eq e = cc

-- Whatever is normalised, the result has 1 to 64 code units, all of [a-z0-9._-], starts and ends
-- with a letter or digit, and has no two dashes in a row.
pub normalize_segment-IsName : (v t : Text) → normalize_segment v ≡ some t → IsName t
unfolding normalize_segment
normalize_segment-IsName v t h = elim (Bool-cases (is_empty (clean v))) [
  | inl e ↦ absurd (ground arith)
  | inr e ↦
      let same : shorten (clean v) ≡ t = ground arith in
      rw same at (shorten-IsName (clean v) (clean-IsClean v) (ne_nil_of_is_empty _ e))
]

normalize_segment_of_IsName : (t : Text) → IsName t → normalize_segment t ≡ some t
unfolding normalize_segment
normalize_segment_of_IsName t v =
    rw (clean_of_IsClean t v.tidy, is_empty-false t v.nonempty, shorten_of_short t v.short)

-- A text is its own sandbox id exactly when it is a name: 1 to 64 code units of [a-z0-9._-] that
-- start and end with a letter or digit, with no two dashes in a row.
pub normalize_sandbox_id-fixed_iff : (t : Text) → (normalize_sandbox_id t ≡ some t) ↔ IsName t
unfolding normalize_sandbox_id
normalize_sandbox_id-fixed_iff t = (normalize_segment-IsName t t, normalize_segment_of_IsName t)

-- Normalising a sandbox id a second time changes nothing: a lookup that normalises its argument
-- finds the id under which the row was stored.
pub normalize_sandbox_id_idem :
    (v t : Text) → normalize_sandbox_id v ≡ some t → normalize_sandbox_id t ≡ some t
unfolding normalize_sandbox_id
normalize_sandbox_id_idem v t h = normalize_segment_of_IsName t (normalize_segment-IsName v t h)
