-- ===== src/Control/Routes.antt =====
-- apps/cloud-api/src/runtime-control/sandbox.controller.ts and health/health.controller.ts: the
-- routes, and which of them stand behind the guard. The dates of the answers stay numbers.
use microsanbox_cloud.Prelude.{ℕ, Bool, List, [], map, Option, Text}
use microsanbox_cloud.Text.{trim}
use microsanbox_cloud.Effects.{pure, ◌>>=◌, ◌>>◌, guard, unauthorized}
use microsanbox_cloud.Database.{RuntimeEntity, VolumeEntity}
use microsanbox_cloud.Registry.Summaries.{
  RuntimeSummary, VolumeSummary, runtime_status_summary, volume_summary,
}
use microsanbox_cloud.Config.{AppConfig}
use microsanbox_cloud.Guards.{AuthHeader, can_activate}
use microsanbox_cloud.Control.Types.{
  Backend, EnsureRuntimeDto, RuntimeFileDto, RuntimeRegistryAuthDto, CreateVolumeDto,
  ExecRuntimeDto, WriteFilesDto, DownloadFilesDto, ExecResult, ImageInfo,
}
use microsanbox_cloud.Control.Monad.{M, get_value, modify_db}
use microsanbox_cloud.Registry.Volumes.{ensure_local_host}
use microsanbox_cloud.Control.Spec.{or_else, normalize_registry_auth}
use microsanbox_cloud.Control.Lifecycle.{
  get, start, stop, delete, exec, refresh_activity, write_files, download_files, create, ensure,
  update,
}
use microsanbox_cloud.Control.Preview.{
  PreviewUrl, SignedPreviewUrl, validate_preview_token, get_preview_public_state,
  expire_signed_preview_url, resolve_signed_preview_token, get_preview_url, get_signed_preview_url,
}
use microsanbox_cloud.Control.Volumes.{create_volume, remove_volume}
use microsanbox_cloud.Control.Listing.{
  list_sandboxes, list_volume_rows, get_volume, list_images, pull_image,
}

-- The requests, with the parameters of their paths and their bodies, validated.
pub data SandboxRoute : Type 0 where
  get_sandboxes : SandboxRoute
  post_sandboxes post_ensure : EnsureRuntimeDto → SandboxRoute
  put_sandbox : (sandbox_id : Text) (body : EnsureRuntimeDto) → SandboxRoute
  get_sandbox post_start post_stop delete_sandbox : (value : Text) → SandboxRoute

pub data LinkRoute : Type 0 where
  get_url get_signed_url : (value : Text) (port : ℕ) → LinkRoute
  post_expire : (value : Text) (port : ℕ) (token : Text) → LinkRoute

pub data AccessRoute : Type 0 where
  post_exec : (value : Text) (body : ExecRuntimeDto) → AccessRoute
  post_refresh : (value : Text) → AccessRoute
  post_files : (value : Text) (body : WriteFilesDto) → AccessRoute
  post_download : (value : Text) (body : DownloadFilesDto) → AccessRoute

pub data VolumeRoute : Type 0 where
  get_volumes : VolumeRoute
  post_volume : (body : CreateVolumeDto) → VolumeRoute
  get_one_volume delete_one_volume : (value : Text) → VolumeRoute

pub data ImageRoute : Type 0 where
  get_images : ImageRoute
  post_pull : (reference : Option Text) (auth : Option RuntimeRegistryAuthDto) → ImageRoute

pub data PreviewRoute : Type 0 where
  get_public : (value : Text) → PreviewRoute
  get_validate : (value token : Text) → PreviewRoute
  get_resolve : (token : Text) (port : ℕ) → PreviewRoute

pub data Route : Type 0 where
  sandbox_route : SandboxRoute → Route
  link_route : LinkRoute → Route
  access_route : AccessRoute → Route
  volume_route : VolumeRoute → Route
  image_route : ImageRoute → Route
  preview_route : PreviewRoute → Route
  get_health : Route

pub data Answer : Type 0 where
  sandbox : RuntimeSummary → Answer
  sandboxes : List RuntimeSummary → Answer
  named deleted : Text → Answer
  url : PreviewUrl → Answer
  signed_url : SignedPreviewUrl → Answer
  executed : (sandbox_id sandbox_name : Text) → ExecResult → Answer
  downloaded : Text × List RuntimeFileDto → Answer
  volume : VolumeSummary → Answer
  volumes : List VolumeSummary → Answer
  images : List ImageInfo → Answer
  pulled : ImageInfo × Bool → Answer
  public_state : Text × Bool → Answer
  healthy : (timestamp : ℕ) → Answer

abbrev pub answer : {W A : Type 0} → (A → Answer) → M W A → M W Answer
answer make m = m >>= λ a. pure (make a)

abbrev pub of_runtime : RuntimeEntity → Answer
of_runtime runtime = sandbox (runtime_status_summary runtime)

abbrev pub of_exec : RuntimeEntity × ExecResult → Answer
of_exec (runtime, result) = executed runtime.sandbox_id runtime.sandbox_name result

abbrev pub of_volume : VolumeEntity → Answer
of_volume row = volume (volume_summary row)

-- `@UseGuards(InternalAuthGuard)`
unfoldable pub guarded : {W : Type 0} → Text → AuthHeader → M W Answer → M W Answer
guarded token header m = guard (can_activate token header) unauthorized >> m

module _ {W : Type 0} (config : AppConfig) (b : Backend W) (token : Text) where
  unfoldable pub respond_sandboxes : AuthHeader → SandboxRoute → M W Answer
  unfolding guarded
  respond_sandboxes h get_sandboxes =
      guarded token h (answer (λ rows. sandboxes (map runtime_status_summary rows)) list_sandboxes)
  respond_sandboxes h (post_sandboxes body) =
      guarded token h (answer of_runtime (create b config body))
  respond_sandboxes h (post_ensure body) =
      guarded token h (answer of_runtime (ensure b config body))
  respond_sandboxes h (put_sandbox id body) =
      guarded token h (answer of_runtime (update b config id body))
  respond_sandboxes h (get_sandbox value) = guarded token h (answer of_runtime (get b value))
  respond_sandboxes h (post_start value) = guarded token h (answer of_runtime (start b value))
  respond_sandboxes h (post_stop value) = guarded token h (answer of_runtime (stop b value))
  respond_sandboxes h (delete_sandbox value) = guarded token h (answer deleted (delete b value))

  unfoldable pub respond_links : AuthHeader → LinkRoute → M W Answer
  unfolding guarded
  respond_links h (get_url value port) =
      guarded token h (answer url (get_preview_url b config value port))
  respond_links h (get_signed_url value port) =
      guarded token h (answer signed_url (get_signed_preview_url b config value port))
  respond_links h (post_expire value port preview) =
      guarded token h (answer named (expire_signed_preview_url value port preview))

  unfoldable pub respond_access : AuthHeader → AccessRoute → M W Answer
  unfolding guarded
  respond_access h (post_exec value body) =
      guarded token h (answer of_exec (exec b value body.command (or_else body.args [])))
  respond_access h (post_refresh value) =
      guarded token h (answer of_runtime (refresh_activity b value))
  respond_access h (post_files value body) =
      guarded token h (answer of_runtime (write_files b value body.files))
  respond_access h (post_download value body) =
      guarded token h (answer downloaded (download_files b value body.paths))

  unfoldable pub respond_volumes : AuthHeader → VolumeRoute → M W Answer
  unfolding guarded
  respond_volumes h get_volumes =
      guarded token h (answer (λ rows. volumes (map volume_summary rows)) list_volume_rows)
  respond_volumes h (post_volume body) =
      guarded token h (answer of_volume (create_volume b config body.name body.quota_mib))
  respond_volumes h (get_one_volume value) = guarded token h (answer of_volume (get_volume value))
  respond_volumes h (delete_one_volume value) =
      guarded token h (answer deleted (remove_volume b value))

  unfoldable pub respond_images : AuthHeader → ImageRoute → M W Answer
  unfolding guarded
  respond_images h get_images = guarded token h (answer images (list_images b))
  respond_images h (post_pull reference auth) =
      guarded token h
        (answer pulled (pull_image b (trim (or_else reference [])) (normalize_registry_auth auth)))

  unfoldable pub respond_previews : AuthHeader → PreviewRoute → M W Answer
  respond_previews h (get_public value) = answer public_state (get_preview_public_state value)
  respond_previews h (get_validate value preview) =
      answer named (validate_preview_token value preview)
  respond_previews h (get_resolve preview port) =
      answer named (resolve_signed_preview_token b preview port)

  -- apps/cloud-api/src/health/health.controller.ts
  unfoldable pub health : M W Answer
  health = do
    time ← get_value b.now
    modify_db (ensure_local_host config time)
    timestamp ← get_value b.now
    pure (healthy timestamp)

  unfoldable pub respond : AuthHeader → Route → M W Answer
  unfolding respond_sandboxes respond_links respond_access respond_volumes respond_images
      respond_previews health
  respond h (sandbox_route r) = respond_sandboxes h r
  respond h (link_route r) = respond_links h r
  respond h (access_route r) = respond_access h r
  respond h (volume_route r) = respond_volumes h r
  respond h (image_route r) = respond_images h r
  respond h (preview_route r) = respond_previews h r
  respond h get_health = health
