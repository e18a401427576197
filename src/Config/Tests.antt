-- ===== src/Config/Tests.antt =====
-- Settings at concrete environments.
use microsanbox_cloud.Text.{join, ends_with, split}
use microsanbox_cloud.Text.Decimal.{decimal}
use microsanbox_cloud.Prelude.{
  ℕ, ◌≡◌, refl, [], Option, none, some, Text, codes, is_empty, text_eq, if◌then◌else◌,
}
use microsanbox_cloud.Config.StartUp.{start_up_config}
use microsanbox_cloud.Config.Environment.{Environment, app_config}

-- `Number` at the empty text is 0, and at a word is not finite.
abbrev number : Text → Option ℕ
number s = if is_empty s then some 0 else none

abbrev empty_port : Environment
empty_port name =
    if text_eq name (codes "MICROSANDBOX_CLOUD_PORT_RANGE_START") then some [] else none

-- A variable that is set to the empty text counts as 0, where one that is not set has the default.
empty_start : (app_config number empty_port).port_range_start ≡ 0
unfolding app_config text_eq
empty_start = refl

default_end : (app_config number empty_port).port_range_end ≡ 31999
unfolding app_config text_eq
default_end = refl

default_base_url : (app_config number empty_port).proxy_base_url ≡ codes "http://localhost:3210"
unfolding app_config text_eq decimal
default_base_url = refl

-- The volumes stand beside the database, in the repository.
default_volumes :
    (start_up_config number empty_port (codes "/srv/apps/cloud-api")).managed_volume_root
    ≡ codes "/srv/data/volumes"
unfolding start_up_config text_eq join ends_with split
default_volumes = refl
