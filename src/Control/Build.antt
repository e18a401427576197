-- ===== src/Control/Build.antt =====
-- `buildSpec`, `buildUpdateInput`, `requiresRecreate` and `firstPortBinding`.
use microsanbox_cloud.Prelude.{
  ℕ, zero, suc, Bool, not, ◌||◌, List, [], ◌∷◌, map, Option, none, some, Text, text_eq,
  option_text_eq, ◌==◌,
}
use microsanbox_cloud.Text.{trim}
use microsanbox_cloud.Effects.{Eff, pure, throw, ◌>>=◌, no_port_binding}
use microsanbox_cloud.Database.{
  RuntimeEntity, RuntimeSecretRecord, RuntimePortBindingRecord, RuntimeVolumeMountRecord,
}
use microsanbox_cloud.Config.{AppConfig}
use microsanbox_cloud.Registry.{Reg}
use microsanbox_cloud.Control.Types.{
  RuntimeSecretDto, RuntimePortDto, RuntimeVolumeMountDto, EnsureRuntimeDto, MountInput,
  RuntimeSpec,
}
use microsanbox_cloud.Control.Spec.{
  or_else, or_option, and_then, nonempty, is_true, is_false, build_runtime_files,
  build_runtime_secrets, normalize_registry_auth, resolve_ports, with_ssh, resolve_volumes,
}
use microsanbox_cloud.Control.Json.{
  list_eq, option_eq, pair_eq, json_secret_eq, port_bindings_equal, mount_records_equal, bool_eq,
}

-- `n > 0 ? n : null`
abbrev pub positive : Option ℕ → Option ℕ
positive none = none
positive (some zero) = none
positive (some (suc n)) = some (suc n)

-- `command?.length ? command : null`
abbrev pub nonempty_list {ℓ} : {A : Type ℓ} → Option (List A) → Option (List A)
nonempty_list none = none
nonempty_list (some []) = none
nonempty_list (some (a ∷ xs)) = some (a ∷ xs)

-- `{ ...port, hostPort: 0 }`
abbrev pub unassigned : RuntimePortBindingRecord → RuntimePortBindingRecord
unassigned p = record p { host_port = 0 }

-- What `buildSpec` returns once the volumes are known.
unfoldable pub assemble_spec :
    AppConfig → EnsureRuntimeDto → List RuntimeVolumeMountRecord × List MountInput → RuntimeSpec
assemble_spec config input volumes =
    let ssh = not (is_false input.ssh_enabled) in
    record {
      image = or_else (and_then input.image (λ i. nonempty (trim i))) config.default_image;
      registry_auth = normalize_registry_auth input.registry_auth;
      command = nonempty_list input.command;
      env = or_else input.env [];
      files = build_runtime_files (or_else input.files []);
      secrets = build_runtime_secrets (or_else input.secrets []);
      working_dir = and_then input.working_dir (λ d. nonempty (trim d));
      ports = map unassigned (with_ssh ssh (resolve_ports config input.ports input.primary_port));
      mounts = volumes.0;
      mount_inputs = volumes.1;
      resources = record {
        cpu = or_else (and_then input.resources (λ r. r.cpu)) config.default_cpu;
        memory_mib =
            or_else (and_then input.resources (λ r. r.memory_mib)) config.default_memory_mib;
        disk_gib = or_else (and_then input.resources (λ r. r.disk_gib)) config.default_disk_gib;
      };
      is_public = is_true input.is_public;
      auto_stop_minutes = positive input.auto_stop_minutes;
      ephemeral = is_true input.ephemeral;
      ssh = ssh;
    }

unfoldable pub build_spec : AppConfig → EnsureRuntimeDto → Reg RuntimeSpec
unfolding assemble_spec
build_spec config input = do
  volumes ← resolve_volumes (or_else input.volumes [])
  pure (assemble_spec config input volumes)

secret_dto : RuntimeSecretRecord → RuntimeSecretDto
secret_dto s = record {
  env = s.env;
  value = s.value;
  placeholder = s.placeholder;
  allowed_hosts = some s.allowed_hosts;
  allowed_host_patterns = some s.allowed_host_patterns;
  allow_any_host_dangerous = s.allow_any_host_dangerous;
  require_tls_identity = s.require_tls_identity;
  inject_headers = s.inject_headers;
  inject_basic_auth = s.inject_basic_auth;
  inject_query = s.inject_query;
  inject_body = s.inject_body;
}

unfoldable pub port_dto : RuntimePortBindingRecord → RuntimePortDto
port_dto b = record { name = b.name; container_port = b.container_port; protocol = some b.protocol }

mount_dto : RuntimeVolumeMountRecord → RuntimeVolumeMountDto
mount_dto m = record {
  volume_id = m.volume_id;
  mount_path = m.mount_path;
  subpath = none;
  read_only = some m.read_only;
}

-- The properties `primaryPort` and `ssh` of the body are not passed on.
unfoldable pub build_update_input : RuntimeEntity → EnsureRuntimeDto → EnsureRuntimeDto
unfolding secret_dto port_dto mount_dto
build_update_input runtime input = record {
  sandbox_id = some runtime.sandbox_id;
  name = or_option input.name runtime.name;
  image = some (or_else input.image runtime.image);
  command = or_option input.command runtime.command;
  env = some (or_else input.env runtime.environment);
  files = some (or_else input.files []);
  secrets = some (or_else input.secrets (map secret_dto runtime.secrets));
  working_dir = or_option input.working_dir runtime.working_dir;
  primary_port = none;
  ports = some (or_else input.ports (map port_dto runtime.port_bindings));
  resources = some (record {
    cpu = some (or_else (and_then input.resources (λ r. r.cpu)) runtime.cpu);
    memory_mib = some (or_else (and_then input.resources (λ r. r.memory_mib)) runtime.memory_mib);
    disk_gib = some (or_else (and_then input.resources (λ r. r.disk_gib)) runtime.disk_gib);
  });
  volumes = some (or_else input.volumes (map mount_dto runtime.mounts));
  registry_auth = input.registry_auth;
  is_public = some (or_else input.is_public runtime.is_public);
  auto_stop_minutes = or_option input.auto_stop_minutes runtime.auto_stop_minutes;
  ephemeral = some (or_else input.ephemeral runtime.ephemeral);
  ssh_enabled = none;
  force_recreate = input.force_recreate;
  refresh_activity = input.refresh_activity;
}

-- The ports of the specification with the host ports that the runtime has at the same places.
unfoldable pub with_host_ports :
    RuntimeEntity
    → List RuntimePortBindingRecord
    → List RuntimePortBindingRecord
    → List RuntimePortBindingRecord
with_host_ports runtime bindings [] = []
with_host_ports runtime [] (p ∷ ports) =
    record p { host_port = runtime.host_port } ∷ with_host_ports runtime [] ports
with_host_ports runtime (b ∷ bindings) (p ∷ ports) =
    record p { host_port = b.host_port } ∷ with_host_ports runtime bindings ports

unfoldable pub requires_recreate : RuntimeEntity → RuntimeSpec → Option Text → Bool
unfolding with_host_ports port_bindings_equal mount_records_equal list_eq option_eq json_secret_eq
requires_recreate runtime next next_name =
    not (option_text_eq runtime.name next_name)
    || not (text_eq runtime.image next.image)
    || not (list_eq text_eq (or_else runtime.command []) (or_else next.command []))
    || not (list_eq pair_eq runtime.environment next.env)
    || not (list_eq json_secret_eq runtime.secrets next.secrets)
    || not (option_text_eq runtime.working_dir next.working_dir)
    || not (
        port_bindings_equal runtime.port_bindings
          (with_host_ports runtime runtime.port_bindings next.ports))
    || not (mount_records_equal runtime.mounts next.mounts)
    || not (bool_eq runtime.is_public next.is_public)
    || not (runtime.cpu == next.resources.cpu)
    || not (runtime.memory_mib == next.resources.memory_mib)
    || not (runtime.disk_gib == next.resources.disk_gib)
    || not (option_eq ◌==◌ runtime.auto_stop_minutes next.auto_stop_minutes)
    || not (bool_eq runtime.ephemeral next.ephemeral)

unfoldable pub first_port_binding :
    {S : Type 0} → List RuntimePortBindingRecord → Eff S RuntimePortBindingRecord
first_port_binding [] = throw no_port_binding
first_port_binding (p ∷ ports) = pure p
