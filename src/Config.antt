-- ===== src/Config.antt =====
-- apps/cloud-api/src/config/app-config.service.ts: the settings that the services read.
pub mod Environment
pub mod StartUp
mod Tests
use microsanbox_cloud.Prelude.{ℕ, Text}

pub record AppConfig : Type 0 where
  pub runtime_host_name : Text
  pub runtime_host_base_url : Text
  pub runtime_host_public_base_url : Text
  pub proxy_base_url : Text
  pub sandbox_name_prefix : Text
  pub volume_name_prefix : Text
  pub port_range_start : ℕ
  pub port_range_end : ℕ
  pub default_exposed_port : ℕ
  pub default_cpu : ℕ
  pub default_memory_mib : ℕ
  pub default_disk_gib : ℕ
  pub default_image : Text
  pub connection_ttl_seconds : ℕ
  pub runtime_ready_timeout_ms : ℕ
  pub runtime_ready_poll_interval_ms : ℕ
