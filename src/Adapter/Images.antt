-- ===== src/Adapter/Images.antt =====
-- `pullImage`, and the commands that it runs.
use microsanbox_cloud.Prelude.{
  List, Bool, true, false, [], ◌∷◌, Option, none, some, Text, codes, is_empty,
}
use microsanbox_cloud.Text.{trim}
use microsanbox_cloud.Effects.{
  Error, Eff, pure, throw, ◌>>=◌, ◌>>◌, catch, guard, backend, image_required, when◌then◌else◌,
}
use microsanbox_cloud.Control.Types.{ImageInfo, RuntimeRegistryAuthDto}
use microsanbox_cloud.Adapter.Cli.{run_microsandbox_cli}
use microsanbox_cloud.Adapter.Library.{Library, finally, best_effort}

module _ {W H B : Type 0} (lib : Library W H B) where
  unfoldable pub ensure_microsandbox_runtime_installed : Eff W (Unit {0})
  ensure_microsandbox_runtime_installed w =
      guard (lib.is_installed w)
        (backend (
          codes
            "Microsandbox runtime is not installed on this host. Install Microsandbox before pulling or provisioning images."))
        w

  unfoldable pub list_cached_images : Eff W (List ImageInfo)
  list_cached_images = lib.list_images

  unfoldable pub pull : Text → Eff W (Unit {0})
  unfolding run_microsandbox_cli
  pull reference = run_microsandbox_cli lib (codes "pull" ∷ reference ∷ []) none

  -- The password goes to the standard input.
  unfoldable pub login_registry : RuntimeRegistryAuthDto → Eff W (Unit {0})
  unfolding run_microsandbox_cli
  login_registry auth =
      run_microsandbox_cli lib
        (codes "registry"
          ∷ codes "login"
          ∷ codes "--username"
          ∷ auth.username
          ∷ codes "--password-stdin"
          ∷ auth.server
          ∷ [])
        (some auth.password)

  unfoldable pub logout_registry : Text → Eff W (Unit {0})
  unfolding run_microsandbox_cli
  logout_registry server =
      run_microsandbox_cli lib (codes "registry" ∷ codes "logout" ∷ server ∷ []) none

  -- What follows an anonymous pull that failed.
  unfoldable pub pull_with_login : Text → Option RuntimeRegistryAuthDto → Error → Eff W (Unit {0})
  unfolding pull login_registry logout_registry finally best_effort
  pull_with_login reference none e = throw e
  pull_with_login reference (some auth) e = do
    login_registry auth
    finally (pull reference) (best_effort (logout_registry auth.server))

  unfoldable pub pull_missing : Text → Option RuntimeRegistryAuthDto → Eff W (ImageInfo × Bool)
  unfolding ensure_microsandbox_runtime_installed pull pull_with_login
  pull_missing reference auth = do
    ensure_microsandbox_runtime_installed
    catch (pull reference) (pull_with_login reference auth)
    info ← lib.get_image reference
    pure (info, false)

  -- The image, and whether it was cached.
  unfoldable pub pull_image : Text → Option RuntimeRegistryAuthDto → Eff W (ImageInfo × Bool)
  unfolding pull_missing
  pull_image reference auth =
      when is_empty (trim reference)
      then throw image_required
      else catch (lib.get_image (trim reference) >>= λ info. pure (info, true))
          λ e. pull_missing (trim reference) auth
