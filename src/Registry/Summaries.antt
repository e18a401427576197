-- ===== src/Registry/Summaries.antt =====
-- The summaries of rows that the requests are answered with, without the dates of their making.
use microsanbox_cloud.Prelude.{ℕ, Bool, not, List, [], ◌∷◌, Option, none, some, Text, is_empty}
use microsanbox_cloud.Database.{
  RuntimeEntity, RuntimeStatus, StatusReason, Protocol, RuntimePortBindingRecord,
  RuntimeVolumeMountRecord, VolumeEntity,
}

-- A secret and the preview token of the sandbox are in none of the fields.
pub record RuntimeSummary : Type 0 where
  pub runtime_id : Text
  pub sandbox_id : Text
  pub name : Option Text
  pub sandbox_name : Text
  pub runtime_host_id : Text
  pub host_port : ℕ
  pub primary_port : ℕ
  pub primary_port_protocol : Protocol
  pub port_bindings : List RuntimePortBindingRecord
  pub is_public : Bool
  pub status : RuntimeStatus
  pub image : Text
  pub command : List Text
  pub env : List (Text × Text)
  pub working_dir : Option Text
  pub mounts : List RuntimeVolumeMountRecord
  pub volume_mount_path : Option Text
  pub cpu : ℕ
  pub memory_mib : ℕ
  pub disk_gib : ℕ
  pub auto_stop_minutes : Option ℕ
  pub ephemeral : Bool
  pub has_secrets : Bool
  pub last_active_at : Option ℕ
  pub status_reason : Option StatusReason

-- `firstMount?.mountPath ?? null`
abbrev pub first_mount_path : List RuntimeVolumeMountRecord → Option Text
first_mount_path [] = none
first_mount_path (mount ∷ mounts) = some mount.mount_path

abbrev pub command_or_empty : Option (List Text) → List Text
command_or_empty none = []
command_or_empty (some command) = command

unfoldable pub runtime_status_summary : RuntimeEntity → RuntimeSummary
runtime_status_summary runtime = record {
  runtime_id = runtime.id;
  sandbox_id = runtime.sandbox_id;
  name = runtime.name;
  sandbox_name = runtime.sandbox_name;
  runtime_host_id = runtime.runtime_host_id;
  host_port = runtime.host_port;
  primary_port = runtime.primary_port;
  primary_port_protocol = runtime.primary_port_protocol;
  port_bindings = runtime.port_bindings;
  is_public = runtime.is_public;
  status = runtime.status;
  image = runtime.image;
  command = command_or_empty runtime.command;
  env = runtime.environment;
  working_dir = runtime.working_dir;
  mounts = runtime.mounts;
  volume_mount_path = first_mount_path runtime.mounts;
  cpu = runtime.cpu;
  memory_mib = runtime.memory_mib;
  disk_gib = runtime.disk_gib;
  auto_stop_minutes = runtime.auto_stop_minutes;
  ephemeral = runtime.ephemeral;
  has_secrets = not (is_empty runtime.secrets);
  last_active_at = runtime.last_active_at;
  status_reason = runtime.status_reason;
}

-- apps/cloud-api/src/runtime-control/runtime-control.service.ts
pub record VolumeSummary : Type 0 where
  pub volume_id : Text
  pub name : Text
  pub quota_mib : Option ℕ

unfoldable pub volume_summary : VolumeEntity → VolumeSummary
volume_summary volume = record {
  volume_id = volume.id;
  name = volume.name;
  quota_mib = volume.quota_mib;
}
