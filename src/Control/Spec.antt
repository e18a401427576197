-- ===== src/Control/Spec.antt =====
-- The specification of a runtime: `buildSpec`, `buildUpdateInput`, `requiresRecreate` and the
-- private methods that they call.
use microsanbox_cloud.Prelude.{
  Bool, true, false, not, ◌&&◌, List, [], ◌∷◌, ◌++◌, map, Option, none, some, Text, truthy, ◌==◌,
  if◌then◌else◌, any, codes,
}
use microsanbox_cloud.Text.{trim}
use microsanbox_cloud.Effects.{
  when◌then◌else◌, pure, throw, ◌>>=◌, or_throw, volume_not_found, subpath_unsupported,
}
use microsanbox_cloud.Database.{
  tcp, RuntimeSecretRecord, RuntimePortBindingRecord, RuntimeVolumeMountRecord, VolumeEntity,
}
use microsanbox_cloud.Config.{AppConfig}
use microsanbox_cloud.Registry.{Reg}
use microsanbox_cloud.Registry.Volumes.{find_volume_by_id_or_name}
use microsanbox_cloud.Control.Types.{
  RuntimeFileDto, RuntimeSecretDto, RuntimePortDto, RuntimeVolumeMountDto, RuntimeRegistryAuthDto,
  MountInput,
}

-- `a ?? b`
abbrev pub or_else {ℓ} : {A : Type ℓ} → Option A → A → A
or_else none b = b
or_else (some a) b = a

-- `a ?? b` where `b` may be absent too.
abbrev pub or_option {ℓ} : {A : Type ℓ} → Option A → Option A → Option A
or_option none b = b
or_option (some a) b = some a

-- `a?.p`
abbrev pub and_then {ℓ κ} : {A : Type ℓ} {B : Type κ} → Option A → (A → Option B) → Option B
and_then none f = none
and_then (some a) f = f a

-- `s || undefined` on a text.
abbrev pub nonempty : Text → Option Text
nonempty [] = none
nonempty (c ∷ s) = some (c ∷ s)

-- `x === true` and `x === false` on an optional flag.
abbrev pub is_true : Option Bool → Bool
is_true (some true) = true
is_true _ = false

abbrev pub is_false : Option Bool → Bool
is_false (some false) = true
is_false _ = false

unfoldable pub build_runtime_files : List RuntimeFileDto → List RuntimeFileDto
build_runtime_files files = map (λ f. record { path = f.path; content = f.content }) files

unfoldable pub build_runtime_secrets : List RuntimeSecretDto → List RuntimeSecretRecord
build_runtime_secrets secrets =
    map
      (λ s. record {
        env = s.env;
        value = s.value;
        placeholder = s.placeholder;
        allowed_hosts = or_else s.allowed_hosts [];
        allowed_host_patterns = or_else s.allowed_host_patterns [];
        allow_any_host_dangerous = s.allow_any_host_dangerous;
        require_tls_identity = s.require_tls_identity;
        inject_headers = s.inject_headers;
        inject_basic_auth = s.inject_basic_auth;
        inject_query = s.inject_query;
        inject_body = s.inject_body;
      })
      secrets

unfoldable pub normalize_registry_auth :
    Option RuntimeRegistryAuthDto → Option RuntimeRegistryAuthDto
normalize_registry_auth none = none
normalize_registry_auth (some input) =
    let server = trim input.server in
    let username = trim input.username in
    if truthy server && truthy username && truthy input.password
    then some (record { server = server; username = username; password = input.password })
    else none

-- The entry that `resolvePorts` makes of a port.
unfoldable pub resolve_port : RuntimePortDto → RuntimePortBindingRecord
resolve_port entry = record {
  name = and_then entry.name (λ n. nonempty (trim n));
  container_port = entry.container_port;
  host_port = 0;
  protocol = or_else entry.protocol tcp;
  name_last = false;
}

-- The port that is exposed where no list of ports is given.
unfoldable pub primary_or_default : AppConfig → Option RuntimePortDto → RuntimePortDto
primary_or_default config primary = record {
  name = and_then primary (λ p. p.name);
  container_port =
      or_else (and_then primary (λ p. some p.container_port)) config.default_exposed_port;
  protocol = some (or_else (and_then primary (λ p. p.protocol)) tcp);
}

unfoldable pub resolve_ports :
    AppConfig → Option (List RuntimePortDto) → Option RuntimePortDto → List RuntimePortBindingRecord
unfolding resolve_port primary_or_default
resolve_ports config none primary = resolve_port (primary_or_default config primary) ∷ []
resolve_ports config (some []) primary = resolve_port (primary_or_default config primary) ∷ []
resolve_ports config (some (p ∷ ports)) primary = map resolve_port (p ∷ ports)

abbrev pub ssh_binding : RuntimePortBindingRecord
ssh_binding = record {
  name = some (codes "ssh");
  container_port = 22;
  host_port = 0;
  protocol = tcp;
  name_last = true;
}

-- The ports of a specification: unless SSH is switched off, one of them leads to port 22.
unfoldable pub with_ssh : Bool → List RuntimePortBindingRecord → List RuntimePortBindingRecord
with_ssh ssh ports =
    if ssh && not (any (λ p. p.container_port == 22) ports)
    then ports ++ ssh_binding ∷ []
    else ports

unfoldable pub require_volume : Text → Reg VolumeEntity
require_volume value = do
  found ← find_volume_by_id_or_name value
  or_throw found (volume_not_found value)

abbrev pub has_subpath : RuntimeVolumeMountDto → Bool
has_subpath mount = or_else (and_then mount.subpath (λ s. some (truthy (trim s)))) false

unfoldable pub resolve_volumes :
    List RuntimeVolumeMountDto → Reg (List RuntimeVolumeMountRecord × List MountInput)
unfolding require_volume
resolve_volumes [] = pure ([], [])
resolve_volumes (mount ∷ mounts) = do
  volume ← require_volume mount.volume_id
  when has_subpath mount then throw subpath_unsupported else (do
    rest ← resolve_volumes mounts
    pure (
      record {
        volume_id = volume.id;
        volume_name = volume.name;
        mount_path = mount.mount_path;
        read_only = is_true mount.read_only;
      }
          ∷ rest.0,
      record {
        volume_name = volume.backend_name;
        mount_path = mount.mount_path;
        read_only = is_true mount.read_only;
      }
          ∷ rest.1,
    ))
