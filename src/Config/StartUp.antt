-- ===== src/Config/StartUp.antt =====
-- The settings that the start-up of the program reads.
use microsanbox_cloud.Prelude.{ℕ, Bool, [], ◌∷◌, Option, Text, codes, text_eq, if◌then◌else◌}
use microsanbox_cloud.Text.{ends_with}
use microsanbox_cloud.Paths.{dirname, normalize, join_path}
use microsanbox_cloud.Config.Environment.{Environment, text_or, read_int}

-- The root of the repository, from the directory of the process.
unfoldable pub root_of : Text → Text
unfolding normalize dirname
root_of cwd =
    if ends_with (codes "/apps/cloud-api") cwd then join_path (dirname (dirname cwd) ∷ []) else cwd

-- `development` where no environment is named.
unfoldable pub env : Environment → Text
unfolding text_or
env environment = text_or (environment (codes "MICROSANDBOX_ENV")) (codes "development")

unfoldable pub is_dev : Environment → Bool
unfolding env
is_dev environment = text_eq (env environment) (codes "development")

unfoldable pub is_prod : Environment → Bool
unfolding env
is_prod environment = text_eq (env environment) (codes "production")

pub record StartUp : Type 0 where
  pub port : ℕ
  pub host : Text
  pub sqlite_path : Text
  pub managed_volume_root : Text
  pub default_volume_mount_path : Text
  pub healthcheck_timeout_ms : ℕ

module _ (number : Text → Option ℕ) (environment : Environment) (cwd : Text) where
  unfoldable pub sqlite_path_of : Text
  unfolding text_or root_of
  sqlite_path_of =
      text_or (environment (codes "MICROSANDBOX_CLOUD_SQLITE_PATH"))
        (join_path (root_of cwd ∷ codes "data" ∷ codes "microsandbox-cloud.sqlite" ∷ []))

  unfoldable pub start_up_config : StartUp
  unfolding text_or read_int sqlite_path_of dirname
  start_up_config = record {
    port = read_int number environment (codes "MICROSANDBOX_CLOUD_PORT") 3210;
    host = text_or (environment (codes "MICROSANDBOX_CLOUD_HOST")) (codes "0.0.0.0");
    sqlite_path = sqlite_path_of;
    managed_volume_root =
        text_or (environment (codes "MICROSANDBOX_CLOUD_MANAGED_VOLUME_ROOT"))
          (join_path (dirname sqlite_path_of ∷ codes "volumes" ∷ []));
    default_volume_mount_path =
        text_or (environment (codes "MICROSANDBOX_CLOUD_DEFAULT_VOLUME_MOUNT_PATH"))
          (codes "/workspace");
    healthcheck_timeout_ms =
        read_int number environment (codes "MICROSANDBOX_CLOUD_HEALTHCHECK_TIMEOUT_MS") 3000;
  }
