-- ===== src/Identity.antt =====
-- apps/cloud-api/src/runtime-control/runtime-identity.service.ts. Names of sandboxes and volumes;
-- `none` is the error `sandboxId is required`.
pub mod Normal
pub mod Laws
pub mod Refusal
pub mod Names
mod Tests
use microsanbox_cloud.Prelude.{
  ℕ, Bool, true, false, not, ◌&&◌, ◌||◌, List, [], ◌∷◌, ◌++◌, Option, none, some, Text, ltb, leb,
  ◌==◌, if◌then◌else◌, length, take, is_empty,
}
use microsanbox_cloud.Text.{strip_start, strip_end, trim, replace_runs, to_lower_case}

-- [a-z0-9]
unfoldable pub is_alnum : ℕ → Bool
is_alnum c = leb b'a' c && leb c b'z' || leb b'0' c && leb c b'9'

-- [._-]
unfoldable pub is_edge : ℕ → Bool
is_edge c = c == b'.' || c == b'_' || c == b'-'

-- [^a-z0-9._-]
unfoldable pub is_foreign : ℕ → Bool
unfolding is_alnum is_edge
is_foreign c = not (is_alnum c || is_edge c)

pub is_dash : ℕ → Bool
is_dash c = c == b'-'

abbrev pub dash : ℕ
dash = b'-'

-- The chain of replacements of `normalizeSegment`, before the length is looked at.
pub clean : Text → Text
unfolding is_foreign is_dash is_edge
clean value =
    let dashed = replace_runs is_foreign dash false (to_lower_case (trim value)) in
    strip_end is_edge (strip_start is_edge (replace_runs is_dash dash false dashed))

-- The cut to 64 code units.
pub shorten : Text → Text
unfolding is_edge
shorten name =
    if ltb 64 (length name)
    then (let cut = strip_end is_edge (take 64 name) in if is_empty cut then take 64 name else cut)
    else name

pub normalize_segment : Text → Option Text
unfolding clean shorten
normalize_segment value =
    let normalized = clean value in if is_empty normalized then none else some (shorten normalized)

unfoldable pub normalize_sandbox_id : Text → Option Text
unfolding normalize_segment
normalize_sandbox_id value = normalize_segment value

pub trim_name : Text → Text
unfolding is_edge
trim_name value = if leb (length value) 120 then value else strip_end is_edge (take 120 value)

-- `${prefix}-${normalized}`
pub prefixed : Text → Option Text → Option Text
unfolding trim_name
prefixed before none = none
prefixed before (some normalized) = some (trim_name (before ++ dash ∷ normalized))

unfoldable pub sandbox_name : Text → Text → Option Text
unfolding normalize_sandbox_id prefixed
sandbox_name before sandbox_id = prefixed before (normalize_sandbox_id sandbox_id)

unfoldable pub volume_name : Text → Text → Option Text
unfolding normalize_sandbox_id prefixed
volume_name before sandbox_id = prefixed before (normalize_sandbox_id sandbox_id)
