-- ===== src/Control/Rows.antt =====
-- What `provision` writes into a row, and what it hands to the backend.
use microsanbox_cloud.Prelude.{
  ℕ, Bool, true, false, not, ◌||◌, List, [], Option, none, some, Text, text_eq, option_text_eq,
  ◌==◌, if◌then◌else◌, find?, codes,
}
use microsanbox_cloud.Database.{
  RuntimeEntity, RuntimeStatus, StatusReason, RuntimePortBindingRecord,
}
use microsanbox_cloud.Registry.{local_host_id}
use microsanbox_cloud.Control.Types.{RuntimeSpec, CreateRuntimeInput}
use microsanbox_cloud.Control.Spec.{or_else, and_then}

-- `existing && existing.sandboxId !== sandboxId`
unfoldable pub is_other : Option RuntimeEntity → Text → Bool
is_other none sandbox_id = false
is_other (some r) sandbox_id = not (text_eq r.sandbox_id sandbox_id)

-- The fields that the specification gives to a row.
unfoldable pub with_spec : RuntimeSpec → RuntimeEntity → RuntimeEntity
with_spec spec r = record r {
  image = spec.image;
  command = spec.command;
  environment = spec.env;
  secrets = spec.secrets;
  working_dir = spec.working_dir;
  mounts = spec.mounts;
  cpu = spec.resources.cpu;
  memory_mib = spec.resources.memory_mib;
  disk_gib = spec.resources.disk_gib;
  auto_stop_minutes = spec.auto_stop_minutes;
  ephemeral = spec.ephemeral;
}

-- The host port of the primary port among the bindings, or else the one in the row.
unfoldable pub primary_host_port : RuntimeEntity → ℕ
primary_host_port r =
    or_else
      (and_then (find? (λ p. p.container_port == r.primary_port) r.port_bindings)
        (λ p. some p.host_port))
      r.host_port

-- The row of a new runtime.
unfoldable pub new_row :
    Text
    → Option Text
    → RuntimeSpec
    → RuntimePortBindingRecord
    → Text
    → Text
    → Text
    → ℕ
    → RuntimeEntity
unfolding with_spec
new_row sandbox_id name spec primary backend_name auth_token id time = record {
  id = id;
  sandbox_id = sandbox_id;
  name = name;
  sandbox_name = backend_name;
  runtime_host_id = local_host_id;
  port_bindings = [];
  primary_port = primary.container_port;
  host_port = 0;
  primary_port_protocol = primary.protocol;
  is_public = spec.is_public;
  auth_token = auth_token;
  status = RuntimeStatus.provisioning;
  image = spec.image;
  command = spec.command;
  environment = spec.env;
  secrets = spec.secrets;
  working_dir = spec.working_dir;
  mounts = spec.mounts;
  cpu = spec.resources.cpu;
  memory_mib = spec.resources.memory_mib;
  disk_gib = spec.resources.disk_gib;
  auto_stop_minutes = spec.auto_stop_minutes;
  ephemeral = spec.ephemeral;
  last_active_at = some time;
  status_reason = some StatusReason.allocating_ports;
}

unfoldable pub detached_input :
    RuntimeEntity → RuntimeSpec → List RuntimePortBindingRecord → CreateRuntimeInput
detached_input runtime spec ports = record {
  sandbox_name = runtime.sandbox_name;
  image = spec.image;
  registry_auth = spec.registry_auth;
  command = spec.command;
  working_dir = spec.working_dir;
  ports = ports;
  mounts = spec.mount_inputs;
  resources = spec.resources;
  env = spec.env;
  secrets = spec.secrets;
  files = spec.files;
  auto_stop_minutes = spec.auto_stop_minutes;
  ssh = spec.ssh;
}

-- The binding of the SSH daemon, looked for only where SSH is on.
unfoldable pub find_ssh :
    RuntimeSpec → List RuntimePortBindingRecord → Option RuntimePortBindingRecord
find_ssh spec ports =
    if spec.ssh
    then find? (λ p. option_text_eq p.name (some (codes "ssh")) || p.container_port == 22) ports
    else none

unfoldable pub final_status : Bool → Bool → RuntimeStatus × StatusReason
final_status true true = (RuntimeStatus.running, StatusReason.provisioned)
final_status false _ = (RuntimeStatus.error, StatusReason.runtime_unhealthy)
final_status true false = (RuntimeStatus.error, StatusReason.ssh_unhealthy)

-- The row at the end of `provision`, with the ports and the outcome of the health checks.
unfoldable pub finished_row :
    Option Text
    → RuntimeSpec
    → List RuntimePortBindingRecord
    → RuntimePortBindingRecord
    → RuntimeStatus × StatusReason
    → Option ℕ
    → RuntimeEntity
    → RuntimeEntity
unfolding with_spec
finished_row name spec ports primary status active r = with_spec spec (record r {
  name = name;
  port_bindings = ports;
  primary_port = primary.container_port;
  host_port = primary.host_port;
  primary_port_protocol = primary.protocol;
  is_public = spec.is_public;
  status = status.0;
  status_reason = some status.1;
  last_active_at = active;
})
