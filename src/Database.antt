-- ===== src/Database.antt =====
-- apps/cloud-api/src/database and apps/cloud-api/src/ssh/entities: the rows of the tables. A
-- table is the list of its rows; the columns that the database fills by itself (createdAt,
-- updatedAt, leasedAt) are left out.
use microsanbox_cloud.Prelude.{ℕ, Bool, List, Option, Text}

pub data RuntimeStatus : Type 0 where
  provisioning running stopped draining deleting deleted error : RuntimeStatus

-- The texts that the services write to `statusReason`.
pub data StatusReason : Type 0 where
  manual_start manual_stop delete_requested config_synced_existing : StatusReason
  replacing_forced replacing_spec_changed allocating_ports : StatusReason
  provisioned runtime_unhealthy ssh_unhealthy : StatusReason

pub data Protocol : Type 0 where
  tcp udp : Protocol

pub record RuntimeSecretRecord : Type 0 where
  pub env : Text
  pub value : Text
  pub placeholder : Option Text
  pub allowed_hosts : List Text
  pub allowed_host_patterns : List Text
  pub allow_any_host_dangerous : Option Bool
  pub require_tls_identity : Option Bool
  pub inject_headers : Option Bool
  pub inject_basic_auth : Option Bool
  pub inject_query : Option Bool
  pub inject_body : Option Bool

-- `name_last` is the order of the object's properties, which its JSON text shows: `name` is
-- first, or it stands behind the others.
pub record RuntimePortBindingRecord : Type 0 where
  pub name : Option Text
  pub container_port : ℕ
  pub host_port : ℕ
  pub protocol : Protocol
  pub name_last : Bool

-- No service writes the optional `subpath`.
pub record RuntimeVolumeMountRecord : Type 0 where
  pub volume_id : Text
  pub volume_name : Text
  pub mount_path : Text
  pub read_only : Bool

pub record RuntimeEntity : Type 0 where
  pub id : Text
  pub sandbox_id : Text
  pub name : Option Text
  pub sandbox_name : Text
  pub runtime_host_id : Text
  pub port_bindings : List RuntimePortBindingRecord
  pub primary_port : ℕ
  pub host_port : ℕ
  pub primary_port_protocol : Protocol
  pub is_public : Bool
  pub auth_token : Text
  pub status : RuntimeStatus
  pub image : Text
  pub command : Option (List Text)
  pub environment : List (Text × Text)
  pub secrets : List RuntimeSecretRecord
  pub working_dir : Option Text
  pub mounts : List RuntimeVolumeMountRecord
  pub cpu : ℕ
  pub memory_mib : ℕ
  pub disk_gib : ℕ
  pub auto_stop_minutes : Option ℕ
  pub ephemeral : Bool
  pub last_active_at : Option ℕ
  pub status_reason : Option StatusReason

pub record VolumeEntity : Type 0 where
  pub id : Text
  pub name : Text
  pub backend_name : Text
  pub quota_mib : Option ℕ

pub record PortLeaseEntity : Type 0 where
  pub runtime_host_id : Text
  pub port : ℕ
  pub runtime_id : Text

pub record SignedPreviewTokenEntity : Type 0 where
  pub token : Text
  pub sandbox_id : Text
  pub port : ℕ
  pub expires_at : ℕ

pub record RuntimeHostEntity : Type 0 where
  pub id : Text
  pub name : Text
  pub base_url : Text
  pub public_base_url : Text
  pub enabled : Bool
  pub last_seen_at : Option ℕ

pub record Db : Type 0 where
  pub hosts : List RuntimeHostEntity
  pub runtimes : List RuntimeEntity
  pub leases : List PortLeaseEntity
  pub volumes : List VolumeEntity
  pub preview_tokens : List SignedPreviewTokenEntity
