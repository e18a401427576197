-- ===== src/Control/Lifecycle.antt =====
-- The operations on one sandbox. Each answers with the row that it summarises.
use microsanbox_cloud.Prelude.{
  Bool, true, false, List, Option, none, some, Text, option_text_eq, codes, if◌then◌else◌,
}
use microsanbox_cloud.Effects.{
  when◌then◌else◌, pure, throw, ◌>>=◌, ◌>>◌, guard, or_throw, sandbox_not_found, not_running,
  sandbox_name_exists,
}
use microsanbox_cloud.Database.{RuntimeEntity, RuntimeStatus, StatusReason}
use microsanbox_cloud.Config.{AppConfig}
use microsanbox_cloud.Registry.{
  find_runtime_by_sandbox_id_or_name, find_runtime_by_sandbox_id, update_runtime,
  set_runtime_status, delete_runtime, release_ports, normalize_name, create_sandbox_id,
}
use microsanbox_cloud.Control.Types.{Backend, EnsureRuntimeDto, RuntimeFileDto, ExecResult}
use microsanbox_cloud.Control.Monad.{M, on_db, on_world, get_value, modify_db}
use microsanbox_cloud.Control.Spec.{or_option, build_runtime_files}
use microsanbox_cloud.Control.Build.{build_update_input}
use microsanbox_cloud.Control.Provision.{provision}

-- `status !== 'running'` and the like.
unfoldable pub same_status : RuntimeStatus → RuntimeStatus → Bool
same_status RuntimeStatus.provisioning RuntimeStatus.provisioning = true
same_status RuntimeStatus.running RuntimeStatus.running = true
same_status RuntimeStatus.stopped RuntimeStatus.stopped = true
same_status RuntimeStatus.draining RuntimeStatus.draining = true
same_status RuntimeStatus.deleting RuntimeStatus.deleting = true
same_status RuntimeStatus.deleted RuntimeStatus.deleted = true
same_status RuntimeStatus.error RuntimeStatus.error = true
same_status _ _ = false

unfoldable pub normalize_status : Option Text → RuntimeStatus
normalize_status status =
    if option_text_eq status (some (codes "running"))
    then RuntimeStatus.running
    else if option_text_eq status (some (codes "stopped"))
    then RuntimeStatus.stopped
    else if option_text_eq status (some (codes "draining"))
    then RuntimeStatus.draining
    else RuntimeStatus.error

unfoldable pub require_runtime : {W : Type 0} → Text → M W RuntimeEntity
require_runtime value = do
  found ← on_db (find_runtime_by_sandbox_id_or_name value)
  or_throw found (sandbox_not_found value)

module _ {W : Type 0} (b : Backend W) where
  unfoldable pub sync_status : RuntimeEntity → M W RuntimeEntity
  unfolding same_status normalize_status
  sync_status runtime = do
    status ← on_world (b.get_status runtime.sandbox_name)
    (when same_status (normalize_status status) runtime.status
        then pure runtime
        else on_db (update_runtime runtime λ r. record r { status = normalize_status status }))

  unfoldable pub require_running_runtime : Text → M W RuntimeEntity
  unfolding require_runtime sync_status
  require_running_runtime value = do
    found ← require_runtime value
    runtime ← sync_status found
    guard (same_status runtime.status RuntimeStatus.running) (not_running runtime.sandbox_id)
    pure runtime

  unfoldable pub get : Text → M W RuntimeEntity
  unfolding require_runtime sync_status
  get value = do runtime ← require_runtime value; sync_status runtime

  unfoldable pub start : Text → M W RuntimeEntity
  unfolding require_runtime
  start value = do
    runtime ← require_runtime value
    on_world (b.start runtime.sandbox_name runtime.command runtime.working_dir)
    time ← get_value b.now
    on_db (set_runtime_status time runtime RuntimeStatus.running (some StatusReason.manual_start))

  -- No time is read here, so the first argument of `set_runtime_status` has no effect.
  unfoldable pub stop : Text → M W RuntimeEntity
  unfolding require_runtime
  stop value = do
    runtime ← require_runtime value
    on_world (b.stop runtime.sandbox_name)
    on_db (set_runtime_status 0 runtime RuntimeStatus.stopped (some StatusReason.manual_stop))

  -- The answer is the sandbox id.
  unfoldable pub delete : Text → M W Text
  unfolding require_runtime
  delete value = do
    runtime ← require_runtime value
    on_db (set_runtime_status 0 runtime RuntimeStatus.deleting (some StatusReason.delete_requested))
    on_world (b.remove runtime.sandbox_name)
    modify_db (release_ports runtime.id)
    modify_db (delete_runtime runtime)
    pure runtime.sandbox_id

  -- `updateRuntime(runtime, { lastActiveAt: new Date() })`
  unfoldable pub touch : RuntimeEntity → M W RuntimeEntity
  touch runtime = do
    time ← get_value b.now
    on_db (update_runtime runtime λ r. record r { last_active_at = some time })

  unfoldable pub exec : Text → Text → List Text → M W (RuntimeEntity × ExecResult)
  unfolding require_running_runtime touch
  exec value command args = do
    runtime ← require_running_runtime value
    result ← on_world (b.exec runtime.sandbox_name command args)
    updated ← touch runtime
    pure (updated, result)

  unfoldable pub refresh_activity : Text → M W RuntimeEntity
  unfolding require_running_runtime touch
  refresh_activity value = do
    runtime ← require_running_runtime value
    on_world (b.refresh_activity runtime.sandbox_name)
    touch runtime

  unfoldable pub write_files : Text → List RuntimeFileDto → M W RuntimeEntity
  unfolding require_running_runtime touch build_runtime_files
  write_files value files = do
    runtime ← require_running_runtime value
    on_world (b.write_files runtime.sandbox_name (build_runtime_files files))
    touch runtime

  unfoldable pub download_files : Text → List Text → M W (Text × List RuntimeFileDto)
  unfolding require_running_runtime touch
  download_files value paths = do
    runtime ← require_running_runtime value
    files ← on_world (b.read_files runtime.sandbox_name paths)
    touch runtime
    pure (runtime.sandbox_id, files)

  module _ (config : AppConfig) where
    -- A name that a sandbox has already, as its id or as its name, is refused.
    unfoldable pub refuse_taken : Option Text → M W (Unit {0})
    refuse_taken none = pure tt
    refuse_taken (some name) = do
      found ← on_db (find_runtime_by_sandbox_id_or_name name)
      elim found [ none ↦ pure tt | some _ ↦ throw (sandbox_name_exists name) ]

    unfoldable pub create : EnsureRuntimeDto → M W RuntimeEntity
    unfolding refuse_taken provision
    create input = do
      name ← normalize_name input.name
      refuse_taken name
      sandbox_id ← create_sandbox_id (get_value (b.draw 8)) name
      provision config b
          (record input {
            sandbox_id = some sandbox_id;
            force_recreate = some false;
            refresh_activity = some true;
          })
          sandbox_id

    unfoldable pub ensure : EnsureRuntimeDto → M W RuntimeEntity
    unfolding provision
    ensure input = do
      sandbox_id ← create_sandbox_id (get_value (b.draw 8)) (or_option input.sandbox_id input.name)
      provision config b (record input { sandbox_id = some sandbox_id }) sandbox_id

    unfoldable pub update : Text → EnsureRuntimeDto → M W RuntimeEntity
    unfolding provision build_update_input
    update sandbox_id input = do
      found ← on_db (find_runtime_by_sandbox_id sandbox_id)
      runtime ← or_throw found (sandbox_not_found sandbox_id)
      provision config b (build_update_input runtime input) runtime.sandbox_id
