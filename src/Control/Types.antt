-- ===== src/Control/Types.antt =====
-- apps/cloud-api/src/runtime-control/dto and microsandbox-adapter.interface.ts: what the control
-- service is given, and what it asks of the backend. An absent optional property is `none`.
use microsanbox_cloud.Prelude.{ℕ, Bool, List, Option, Text}
use microsanbox_cloud.Effects.{Eff}
use microsanbox_cloud.Database.{
  Db, Protocol, RuntimeSecretRecord, RuntimePortBindingRecord, RuntimeVolumeMountRecord,
}

pub record RuntimeFileDto : Type 0 where
  pub path : Text
  pub content : Text

pub record RuntimeSecretDto : Type 0 where
  pub env : Text
  pub value : Text
  pub placeholder : Option Text
  pub allowed_hosts : Option (List Text)
  pub allowed_host_patterns : Option (List Text)
  pub allow_any_host_dangerous : Option Bool
  pub require_tls_identity : Option Bool
  pub inject_headers : Option Bool
  pub inject_basic_auth : Option Bool
  pub inject_query : Option Bool
  pub inject_body : Option Bool

pub record RuntimePortDto : Type 0 where
  pub name : Option Text
  pub container_port : ℕ
  pub protocol : Option Protocol

pub record RuntimeResourcesDto : Type 0 where
  pub cpu : Option ℕ
  pub memory_mib : Option ℕ
  pub disk_gib : Option ℕ

pub record RuntimeVolumeMountDto : Type 0 where
  pub volume_id : Text
  pub mount_path : Text
  pub subpath : Option Text
  pub read_only : Option Bool

pub record RuntimeRegistryAuthDto : Type 0 where
  pub server : Text
  pub username : Text
  pub password : Text

-- The bodies of the smaller requests.
pub record CreateVolumeDto : Type 0 where
  pub name : Text
  pub quota_mib : Option ℕ

pub record ExecRuntimeDto : Type 0 where
  pub command : Text
  pub args : Option (List Text)

pub record WriteFilesDto : Type 0 where
  pub files : List RuntimeFileDto

pub record DownloadFilesDto : Type 0 where
  pub paths : List Text

-- The bodies of create, ensure and update; a body that lacks a property leaves it `none`.
pub record EnsureRuntimeDto : Type 0 where
  pub sandbox_id : Option Text
  pub name : Option Text
  pub image : Option Text
  pub command : Option (List Text)
  pub env : Option (List (Text × Text))
  pub files : Option (List RuntimeFileDto)
  pub secrets : Option (List RuntimeSecretDto)
  pub working_dir : Option Text
  pub primary_port : Option RuntimePortDto
  pub ports : Option (List RuntimePortDto)
  pub resources : Option RuntimeResourcesDto
  pub volumes : Option (List RuntimeVolumeMountDto)
  pub registry_auth : Option RuntimeRegistryAuthDto
  pub is_public : Option Bool
  pub auto_stop_minutes : Option ℕ
  pub ephemeral : Option Bool
  pub ssh_enabled : Option Bool
  pub force_recreate : Option Bool
  pub refresh_activity : Option Bool

pub record MountInput : Type 0 where
  pub volume_name : Text
  pub mount_path : Text
  pub read_only : Bool

pub record RuntimeResources : Type 0 where
  pub cpu : ℕ
  pub memory_mib : ℕ
  pub disk_gib : ℕ

-- `ssh` is the property `ssh.enabled` of the specification.
pub record RuntimeSpec : Type 0 where
  pub image : Text
  pub registry_auth : Option RuntimeRegistryAuthDto
  pub command : Option (List Text)
  pub env : List (Text × Text)
  pub files : List RuntimeFileDto
  pub secrets : List RuntimeSecretRecord
  pub working_dir : Option Text
  pub ports : List RuntimePortBindingRecord
  pub mounts : List RuntimeVolumeMountRecord
  pub mount_inputs : List MountInput
  pub resources : RuntimeResources
  pub is_public : Bool
  pub auto_stop_minutes : Option ℕ
  pub ephemeral : Bool
  pub ssh : Bool

pub record CreateRuntimeInput : Type 0 where
  pub sandbox_name : Text
  pub image : Text
  pub registry_auth : Option RuntimeRegistryAuthDto
  pub command : Option (List Text)
  pub working_dir : Option Text
  pub ports : List RuntimePortBindingRecord
  pub mounts : List MountInput
  pub resources : RuntimeResources
  pub env : List (Text × Text)
  pub secrets : List RuntimeSecretRecord
  pub files : List RuntimeFileDto
  pub auto_stop_minutes : Option ℕ
  pub ssh : Bool

pub record ExecResult : Type 0 where
  pub stdout : Text
  pub stderr : Text
  pub exit_code : ℕ

-- An image in the cache of the host.
pub record ImageInfo : Type 0 where
  pub reference : Text
  pub architecture : Option Text
  pub os : Option Text
  pub size_bytes : Option ℕ
  pub layer_count : ℕ

-- The backend, and the clock and the random numbers of the platform, over a world that they read
-- and change. `refuses` says for which ports the database refuses a lease.
pub record Backend (W : Type 0) : Type 0 where
  pub list_cached_images : Eff W (List ImageInfo)
  pub pull_image : Text → Option RuntimeRegistryAuthDto → Eff W (ImageInfo × Bool)
  pub ensure_volume : Text → Option ℕ → Eff W (Unit {0})
  pub remove_volume : Text → Eff W (Unit {0})
  pub create_detached_runtime : CreateRuntimeInput → Eff W (Unit {0})
  pub start : Text → Option (List Text) → Option Text → Eff W (Unit {0})
  pub stop : Text → Eff W (Unit {0})
  pub remove : Text → Eff W (Unit {0})
  pub exec : Text → Text → List Text → Eff W ExecResult
  pub refresh_activity : Text → Eff W (Unit {0})
  pub write_files : Text → List RuntimeFileDto → Eff W (Unit {0})
  pub read_files : Text → List Text → Eff W (List RuntimeFileDto)
  pub get_status : Text → Eff W (Option Text)
  pub is_healthy : ℕ → Eff W Bool
  pub now : W → ℕ × W
  pub sleep : ℕ → W → W
  pub draw : ℕ → W → Text × W
  pub new_id : W → Text × W
  pub refuses : W → ℕ → Bool

-- The state of the service: the tables and the rest of the world.
pub record Service (W : Type 0) : Type 0 where
  pub db : Db
  pub world : W
