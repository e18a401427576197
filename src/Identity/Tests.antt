-- ===== src/Identity/Tests.antt =====
-- The names of sandboxes at concrete texts.
use microsanbox_cloud.Prelude.{
  ◌≡◌, refl, ◌↔◌, inl, ◌≤◌, some, none, Text, codes, All, arith, length,
}
use microsanbox_cloud.Text.{trim, to_lower_case, strip_end, strip_start, replace_runs}
use microsanbox_cloud.Identity.{normalize_sandbox_id, sandbox_name}
use microsanbox_cloud.Identity.Normal.{IsName}
use microsanbox_cloud.Identity.Laws.{normalize_sandbox_id-fixed_iff}
use microsanbox_cloud.Identity.Refusal.{Blank, normalize_sandbox_id-none_iff}
use microsanbox_cloud.Identity.Names.{sandbox_name-injective, names_bounded}

abbrev my_box : Text
my_box = codes "my-box.1"

abbrev typed : Text
typed = codes "  My -- BOX.1 !"

normalized_box : normalize_sandbox_id typed ≡ some my_box
unfolding normalize_sandbox_id strip_end strip_start replace_runs to_lower_case trim
normalized_box = refl

refused_box : normalize_sandbox_id (codes " -.- ") ≡ none
unfolding normalize_sandbox_id strip_end strip_start replace_runs to_lower_case trim
refused_box = refl

named_box : sandbox_name (codes "runtime") typed ≡ some (codes "runtime-my-box.1")
unfolding sandbox_name strip_end strip_start replace_runs to_lower_case trim
named_box = refl

normalize_sandbox_id-fixed_iff_example : (normalize_sandbox_id my_box ≡ some my_box) ↔ IsName my_box
normalize_sandbox_id-fixed_iff_example = normalize_sandbox_id-fixed_iff my_box

normalize_sandbox_id-none_iff_example :
    (normalize_sandbox_id (codes " -.- ") ≡ none) ↔ All Blank (to_lower_case (trim (codes " -.- ")))
normalize_sandbox_id-none_iff_example = normalize_sandbox_id-none_iff (codes " -.- ")

sandbox_name-injective_example : normalize_sandbox_id typed ≡ normalize_sandbox_id my_box
unfolding sandbox_name strip_end strip_start replace_runs to_lower_case trim
sandbox_name-injective_example =
    sandbox_name-injective (codes "runtime") typed my_box (codes "runtime-my-box.1") (omega arith)
      refl refl

names_bounded_example : length (codes "runtime-my-box.1") ≤ 120
unfolding sandbox_name strip_end strip_start replace_runs to_lower_case trim
names_bounded_example = names_bounded (codes "runtime") typed (codes "runtime-my-box.1") (inl refl)
