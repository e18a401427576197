-- ===== src/Text.antt =====
-- The string operations of JavaScript that the services use, on code units.
pub mod Strip
pub mod Runs
pub mod Split
pub mod Decimal
pub mod Encode
use mathlib.Core.List.{reverse}
use microsanbox_cloud.Prelude.{
  ℕ, ◌+◌, ◌-◌, Bool, true, false, not, ◌&&◌, ◌||◌, List, [], ◌∷◌, ◌++◌, map, Option, none, some,
  Text, ltb, leb, ◌==◌, if◌then◌else◌, is_empty,
}

-- The white space and line terminators that `trim` removes.
unfoldable pub is_space : ℕ → Bool
is_space c =
    leb 9 c && leb c 13
    || c == 32
    || c == 0xa0
    || c == 0x1680
    || leb 0x2000 c && leb c 0x200a
    || c == 0x2028
    || c == 0x2029
    || c == 0x202f
    || c == 0x205f
    || c == 0x3000
    || c == 0xfeff

-- `s.replace(/^[p]+/, '')`
unfoldable pub strip_start : (ℕ → Bool) → Text → Text
strip_start p [] = []
strip_start p (c ∷ s) = if p c then strip_start p s else c ∷ s

-- `s.replace(/[p]+$/, '')`
unfoldable pub strip_end : (ℕ → Bool) → Text → Text
strip_end p [] = []
strip_end p (c ∷ s) = let rest = strip_end p s in if p c && is_empty rest then [] else c ∷ rest

unfoldable pub trim : Text → Text
unfolding strip_start strip_end is_space
trim s = strip_end is_space (strip_start is_space s)

-- `s.replace(/[p]+/g, r)` for one code unit `r`; the flag says that the unit before is in a run.
unfoldable pub replace_runs : (ℕ → Bool) → ℕ → Bool → Text → Text
replace_runs p r inside [] = []
replace_runs p r inside (c ∷ s) =
    let rest = replace_runs p r (p c) s in
    if p c then (if inside then rest else r ∷ rest) else c ∷ rest

-- `toLowerCase` of a code unit. Beside A-Z only U+0130 and U+212A have a lower case with an ASCII
-- letter in it; the others outside ASCII are left as they are, since no caller tells them apart.
unfoldable pub lower : ℕ → Text
lower c =
    if leb b'A' c && leb c b'Z'
    then (c + 32) ∷ []
    else if c == 0x130
    then b'i' ∷ 0x307 ∷ []
    else if c == 0x212a
    then b'k' ∷ []
    else c ∷ []

unfoldable pub to_lower_case : Text → Text
unfolding lower
to_lower_case [] = []
to_lower_case (c ∷ s) = lower c ++ to_lower_case s

unfoldable pub starts_with : Text → Text → Bool
starts_with [] s = true
starts_with (p ∷ ps) [] = false
starts_with (p ∷ ps) (c ∷ s) = p == c && starts_with ps s

-- `s.includes(t)`, the part first.
unfoldable pub includes : Text → Text → Bool
unfolding starts_with
includes t [] = starts_with t []
includes t (c ∷ s) = starts_with t (c ∷ s) || includes t s

-- `s.endsWith(t)`, the end first.
unfoldable pub ends_with : Text → Text → Bool
unfolding starts_with
ends_with t s = starts_with (reverse t) (reverse s)

-- `parts.join(separator)`
unfoldable pub join : Text → List Text → Text
join sep [] = []
join sep (s ∷ []) = s
join sep (s ∷ t ∷ rest) = s ++ sep ++ join sep (t ∷ rest)

-- `s.split(c)` for one code unit.
unfoldable pub split : ℕ → Text → List Text
split c [] = [] ∷ []
split c (d ∷ s) = elim (split c s) [
  | [] ↦ (d ∷ []) ∷ []
  | part ∷ parts ↦ if d == c then [] ∷ part ∷ parts else (d ∷ part) ∷ parts
]
