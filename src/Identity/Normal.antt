-- ===== src/Identity/Normal.antt =====
-- The names that `normalizeSegment` produces, and that it leaves as they are.
use microsanbox_cloud.Prelude.{
  ℕ, zero, suc, ◌≤◌, ◌≡◌, refl, Bool, true, false, inl, inr, [], ◌∷◌, Text, arith, Bool-cases, All,
  All-take, take, length, is_empty, ◌≢◌, length-take, ltb,
}
use microsanbox_cloud.Text.{strip_end, trim, replace_runs, to_lower_case}
use microsanbox_cloud.Text.Strip.{
  StartsOutside, EndsOutside, strip_start-StartsOutside, strip_end-EndsOutside,
  strip_end-StartsOutside, strip_end-ne-nil, All-strip_start, All-strip_end, length-strip_end-le,
}
use microsanbox_cloud.Text.Runs.{
  NoDouble, NoDouble-strip_start, NoDouble-strip_end, NoDouble-take, replace_runs-NoDouble,
  replace_runs-All,
}
use microsanbox_cloud.Identity.{is_edge, is_foreign, is_dash, dash, clean, shorten}

-- A code unit of the alphabet [a-z0-9._-].
abbrev pub IsNative : ℕ → Type 0
IsNative c = is_foreign c ≡ false

-- What the replacements leave: the alphabet, no two dashes in a row, and letters or digits at
-- both ends.
pub record IsClean (s : Text) : Type 0 where
  pub alphabet : All IsNative s
  pub spread : NoDouble is_dash false s
  pub starts : StartsOutside is_edge s
  pub ends : EndsOutside is_edge s

pub dash-IsNative : IsNative dash
unfolding is_foreign
dash-IsNative = refl

pub clean-IsClean : (s : Text) → IsClean (clean s)
unfolding clean
clean-IsClean s = record {
  alphabet =
      All-strip_end is_edge IsNative _ (All-strip_start is_edge IsNative _ (twice dashed native));
  spread = NoDouble-strip_end is_dash is_edge false _ (
      NoDouble-strip_start is_dash is_edge _
        (replace_runs-NoDouble is_dash dash false dashed dash_is_dash));
  starts = strip_end-StartsOutside is_edge _ (strip_start-StartsOutside is_edge _);
  ends = strip_end-EndsOutside is_edge _;
}
  where
    dashed : Text
    dashed = replace_runs is_foreign dash false (to_lower_case (trim s))

    dash_is_dash : is_dash dash ≡ true
    dash_is_dash = unfold is_dash in refl

    self : (t : Text) → All (λ c. is_foreign c ≡ false → IsNative c) t
    self [] = tt
    self (c ∷ t) = (λ h. h, self t)

    native : All IsNative dashed
    native = replace_runs-All is_foreign IsNative dash false _ dash-IsNative (self _)

    given : (t : Text) → All IsNative t → All (λ c. is_dash c ≡ false → IsNative c) t
    given [] h = tt
    given (c ∷ t) (x, h) = (λ _. x, given t h)

    twice : (t : Text) → All IsNative t → All IsNative (replace_runs is_dash dash false t)
    twice t h = replace_runs-All is_dash IsNative dash false t dash-IsNative (given t h)

EndsOutside-take_one : (c : ℕ) (s : Text) → StartsOutside is_edge (c ∷ s) → is_edge c ≡ false
EndsOutside-take_one c s h = h

StartsOutside-take : (n : ℕ) (s : Text) → StartsOutside is_edge s → StartsOutside is_edge (take n s)
StartsOutside-take zero s h = tt
StartsOutside-take (suc n) [] h = tt
StartsOutside-take (suc n) (c ∷ s) h = h

-- The part of a clean name that is kept when it is too long.
cut-IsClean : (s : Text) → IsClean s → IsClean (strip_end is_edge (take 64 s))
cut-IsClean s v = record {
  alphabet = All-strip_end is_edge IsNative _ (All-take IsNative 64 s v.alphabet);
  spread = NoDouble-strip_end is_dash is_edge false _ (NoDouble-take is_dash 64 false s v.spread);
  starts = strip_end-StartsOutside is_edge _ (StartsOutside-take 64 s v.starts);
  ends = strip_end-EndsOutside is_edge _;
}

cut-ne-nil : (s : Text) → StartsOutside is_edge s → s ≢ [] → strip_end is_edge (take 64 s) ≢ []
cut-ne-nil [] h n = absurd (n refl)
cut-ne-nil (c ∷ s) h n = strip_end-ne-nil is_edge c (take 63 s) h

-- `shorten` keeps a clean name clean and within 64 code units; the fallback is never taken.
pub record IsName (s : Text) : Type 0 where
  pub tidy : IsClean s
  pub short : length s ≤ 64
  pub nonempty : s ≢ []

pub is_empty-false : (s : Text) → s ≢ [] → is_empty s ≡ false
is_empty-false [] n = absurd (n refl)
is_empty-false (c ∷ s) n = refl

pub shorten-IsName : (s : Text) → IsClean s → s ≢ [] → IsName (shorten s)
unfolding shorten
shorten-IsName s v n = elim (Bool-cases (ltb' s)) [
  | inl e ↦
      rw (e, is_empty-false _ (cut-ne-nil s v.starts n))
        (record {
          tidy = cut-IsClean s v;
          short = omega (arith, length-strip_end-le is_edge (take 64 s), length-take 64 s);
          nonempty = cut-ne-nil s v.starts n;
        })
  | inr e ↦ rw e (record { tidy = v; short = ground arith; nonempty = n })
]
  where
    ltb' : Text → Bool
    ltb' t = ltb 64 (length t)
