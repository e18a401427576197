-- ===== src/Control/Provision.antt =====
-- `provision`, in the stages of its body.
use microsanbox_cloud.Prelude.{
  ℕ, Bool, true, false, not, ◌||◌, List, Option, none, some, Text, option_text_eq, if◌then◌else◌,
  is_empty, length, codes,
}
use microsanbox_cloud.Effects.{
  when◌then◌else◌, pure, throw, ◌>>=◌, ◌>>◌, catch, guard, sandbox_name_exists,
}
use microsanbox_cloud.Database.{
  RuntimeEntity, RuntimeStatus, StatusReason, RuntimePortBindingRecord,
}
use microsanbox_cloud.Config.{AppConfig}
use microsanbox_cloud.Registry.{
  find_runtime_by_sandbox_id_or_name, find_runtime_by_sandbox_id, update_runtime, save_runtime,
  delete_runtime, normalize_name, sandbox_name,
}
use microsanbox_cloud.Control.Types.{Backend, EnsureRuntimeDto, RuntimeSpec}
use microsanbox_cloud.Control.Monad.{M, on_db, on_world, get_value, modify_db}
use microsanbox_cloud.Control.Spec.{is_true}
use microsanbox_cloud.Control.Build.{build_spec, requires_recreate, first_port_binding}
use microsanbox_cloud.Control.Rows.{
  is_other, with_spec, primary_host_port, new_row, detached_input, find_ssh, final_status,
  finished_row,
}
use microsanbox_cloud.Control.Ports.{assign_leased, assign_ports, lease}
use microsanbox_cloud.Control.Health.{is_transient_detached_setup_error, wait_for_healthy}

module _ {W : Type 0} (config : AppConfig) (b : Backend W) where
  unfoldable pub check_name : Option Text → Text → M W (Unit {0})
  unfolding is_other
  check_name none sandbox_id = pure tt
  check_name (some name) sandbox_id = do
    existing ← on_db (find_runtime_by_sandbox_id_or_name name)
    guard (not (is_other existing sandbox_id)) (sandbox_name_exists name)

  -- `refreshActivity === false ? lastActiveAt : new Date()`
  unfoldable pub active_at : Option Bool → RuntimeEntity → M W (Option ℕ)
  active_at (some false) runtime = pure runtime.last_active_at
  active_at _ runtime = do time ← get_value b.now; pure (some time)

  -- The health of a runtime that exists: its status, and then its primary port.
  unfoldable pub current_healthy : RuntimeEntity → M W Bool
  unfolding primary_host_port
  current_healthy current = do
    status ← on_world (b.get_status current.sandbox_name)
    (when option_text_eq status (some (codes "running"))
        then on_world (b.is_healthy (primary_host_port current))
        else pure false)

  -- The files are synchronised and the row is updated.
  unfoldable pub reuse :
      EnsureRuntimeDto → Option Text → RuntimeSpec → RuntimeEntity → M W RuntimeEntity
  unfolding active_at
  reuse input name spec current = do
    (when is_empty spec.files
        then pure tt
        else on_world (b.write_files current.sandbox_name spec.files))
    active ← active_at input.refresh_activity current
    on_db (
        update_runtime current λ r. record r {
          name = name;
          status = RuntimeStatus.running;
          status_reason =
              if is_empty spec.files
              then r.status_reason
              else some StatusReason.config_synced_existing;
          last_active_at = active;
        })

  unfoldable pub mark_replacing :
      EnsureRuntimeDto → Option Text → RuntimeSpec → RuntimeEntity → M W RuntimeEntity
  unfolding with_spec
  mark_replacing input name spec runtime = on_db (
      update_runtime runtime λ r. with_spec spec (record r {
        name = name;
        status = RuntimeStatus.provisioning;
        status_reason = some (
            if is_true input.force_recreate
            then StatusReason.replacing_forced
            else StatusReason.replacing_spec_changed);
      }))

  -- A failed lease takes the row back.
  unfoldable pub lease_or_delete : RuntimeEntity → ℕ → M W (List ℕ)
  unfolding lease
  lease_or_delete runtime count =
      catch (lease config b runtime.id count) λ e. modify_db (delete_runtime runtime) >> throw e

  unfoldable pub create_row :
      Text
      → Option Text
      → RuntimeSpec
      → RuntimePortBindingRecord
      → M W (RuntimeEntity × List RuntimePortBindingRecord)
  unfolding new_row lease_or_delete
  create_row sandbox_id name spec primary = do
    auth_token ← get_value (b.draw 24)
    backend_name ← on_db (sandbox_name config sandbox_id)
    time ← get_value b.now
    id ← get_value b.new_id
    runtime ←
        on_db (save_runtime (new_row sandbox_id name spec primary backend_name auth_token id time))
    leased ← lease_or_delete runtime (length spec.ports)
    pure (runtime, assign_leased leased spec.ports)

  unfoldable pub launch :
      RuntimeEntity → RuntimeSpec → List RuntimePortBindingRecord → M W (Unit {0})
  unfolding detached_input
  launch runtime spec ports =
      catch (on_world (b.create_detached_runtime (detached_input runtime spec ports)))
        λ e. when is_transient_detached_setup_error e then pure tt else throw e

  unfoldable pub ssh_healthy : Option RuntimePortBindingRecord → M W Bool
  ssh_healthy none = pure true
  ssh_healthy (some p) = wait_for_healthy config b p.host_port

  -- From the health checks to the row that is returned.
  unfoldable pub finish :
      EnsureRuntimeDto
      → Option Text
      → RuntimeSpec
      → RuntimeEntity
      → List RuntimePortBindingRecord
      → M W RuntimeEntity
  unfolding find_ssh ssh_healthy final_status finished_row active_at
  finish input name spec runtime ports = do
    primary ← first_port_binding ports
    app ← wait_for_healthy config b primary.host_port
    ssh ← ssh_healthy (find_ssh spec ports)
    active ← active_at input.refresh_activity runtime
    on_db (
        update_runtime runtime (finished_row name spec ports primary (final_status app ssh) active))

  -- The steps after a row is at hand: host ports, the launch, and the health checks.
  unfoldable pub start_up :
      EnsureRuntimeDto
      → Option Text
      → RuntimeSpec
      → RuntimeEntity × List RuntimePortBindingRecord
      → M W RuntimeEntity
  unfolding launch finish
  start_up input name spec (runtime, specified) = do
    ports ← assign_ports config b runtime specified
    launch runtime spec ports
    finish input name spec runtime ports

  -- A runtime that exists: it is reused if it is healthy and its specification is unchanged.
  unfoldable pub existing :
      EnsureRuntimeDto → Option Text → RuntimeSpec → RuntimeEntity → M W RuntimeEntity
  unfolding current_healthy reuse mark_replacing start_up
  existing input name spec runtime =
      when is_true input.force_recreate || requires_recreate runtime spec name
      then (do
        replaced ← mark_replacing input name spec runtime
        start_up input name spec (replaced, spec.ports))
      else (do
        healthy ← current_healthy runtime
        (when healthy
            then reuse input name spec runtime
            else start_up input name spec (runtime, spec.ports)))

  unfoldable pub fresh :
      EnsureRuntimeDto
      → Option Text
      → RuntimeSpec
      → Text
      → RuntimePortBindingRecord
      → M W RuntimeEntity
  unfolding create_row start_up
  fresh input name spec sandbox_id primary = do
    created ← create_row sandbox_id name spec primary
    start_up input name spec created

  unfoldable pub branch :
      EnsureRuntimeDto
      → Option Text
      → RuntimeSpec
      → Text
      → RuntimePortBindingRecord
      → Option RuntimeEntity
      → M W RuntimeEntity
  unfolding existing fresh
  branch input name spec sandbox_id primary (some runtime) = existing input name spec runtime
  branch input name spec sandbox_id primary none = fresh input name spec sandbox_id primary

  -- The row of the runtime, which the answer summarises.
  unfoldable pub provision : EnsureRuntimeDto → Text → M W RuntimeEntity
  unfolding check_name branch
  provision input sandbox_id = do
    name ← normalize_name input.name
    check_name name sandbox_id
    runtime ← on_db (find_runtime_by_sandbox_id sandbox_id)
    spec ← on_db (build_spec config input)
    primary ← first_port_binding spec.ports
    branch input name spec sandbox_id primary runtime
