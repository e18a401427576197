-- ===== src/Config/Environment.antt =====
-- How the settings are read from the environment.
use microsanbox_cloud.Prelude.{
  ℕ, [], ◌++◌, Option, none, some, Text, codes, is_empty, if◌then◌else◌,
}
use microsanbox_cloud.Text.{trim}
use microsanbox_cloud.Text.Decimal.{decimal}
use microsanbox_cloud.Config.{AppConfig}

-- `process.env`
abbrev pub Environment : Type 0
Environment = Text → Option Text

-- `value?.trim() || fallback`
unfoldable pub text_or : Option Text → Text → Text
text_or none fallback = fallback
text_or (some value) fallback = if is_empty (trim value) then fallback else trim value

-- `Number.isFinite(parsed) ? Math.trunc(parsed) : fallback`, of the number that was parsed.
unfoldable pub number_or : Option ℕ → ℕ → ℕ
number_or none fallback = fallback
number_or (some parsed) fallback = parsed

-- `number` is `Number` with the fraction cut off, and none where it is not finite; an absent
-- variable is not a number. A setting below 0 is left out.
module _ (number : Text → Option ℕ) (environment : Environment) where
  unfoldable pub read_int : Text → ℕ → ℕ
  unfolding number_or
  read_int name fallback = elim (environment name) [
    | none ↦ fallback
    | some raw ↦ number_or (number raw) fallback
  ]

  -- The internal token; the guards take an empty one for none.
  unfoldable pub internal_api_token : Text
  unfolding text_or
  internal_api_token = text_or (environment (codes "MICROSANDBOX_CLOUD_INTERNAL_API_TOKEN")) []

  unfoldable pub proxy_token_secret : Text
  unfolding text_or
  proxy_token_secret =
      text_or (environment (codes "MICROSANDBOX_CLOUD_PROXY_TOKEN_SECRET")) (codes "change-me")

  unfoldable pub app_config : AppConfig
  unfolding read_int text_or
  app_config =
      let port = decimal (read_int (codes "MICROSANDBOX_CLOUD_PORT") 3210) in
      let proxy_base_url =
        text_or (environment (codes "MICROSANDBOX_CLOUD_PROXY_BASE_URL"))
          (codes "http://localhost:" ++ port) in
      record {
        runtime_host_name =
            text_or (environment (codes "MICROSANDBOX_CLOUD_RUNTIME_HOST_NAME")) (codes "local");
        runtime_host_base_url =
            text_or (environment (codes "MICROSANDBOX_CLOUD_RUNTIME_HOST_BASE_URL"))
              (codes "http://127.0.0.1:" ++ port);
        runtime_host_public_base_url =
            text_or (environment (codes "MICROSANDBOX_CLOUD_RUNTIME_HOST_PUBLIC_BASE_URL"))
              proxy_base_url;
        proxy_base_url = proxy_base_url;
        sandbox_name_prefix =
            text_or (environment (codes "MICROSANDBOX_CLOUD_SANDBOX_NAME_PREFIX"))
              (codes "runtime");
        volume_name_prefix =
            text_or (environment (codes "MICROSANDBOX_CLOUD_VOLUME_NAME_PREFIX"))
              (codes "runtime-data");
        port_range_start = read_int (codes "MICROSANDBOX_CLOUD_PORT_RANGE_START") 31000;
        port_range_end = read_int (codes "MICROSANDBOX_CLOUD_PORT_RANGE_END") 31999;
        default_exposed_port = read_int (codes "MICROSANDBOX_CLOUD_DEFAULT_EXPOSED_PORT") 8080;
        default_cpu = read_int (codes "MICROSANDBOX_CLOUD_DEFAULT_CPU") 1;
        default_memory_mib = read_int (codes "MICROSANDBOX_CLOUD_DEFAULT_MEMORY_MIB") 2048;
        default_disk_gib = read_int (codes "MICROSANDBOX_CLOUD_DEFAULT_DISK_GIB") 6;
        default_image =
            text_or (environment (codes "MICROSANDBOX_CLOUD_DEFAULT_IMAGE"))
              (codes "nginx:stable-alpine");
        connection_ttl_seconds = read_int (codes "MICROSANDBOX_CLOUD_CONNECTION_TTL_SECONDS") 600;
        runtime_ready_timeout_ms =
            read_int (codes "MICROSANDBOX_CLOUD_RUNTIME_READY_TIMEOUT_MS") 15000;
        runtime_ready_poll_interval_ms =
            read_int (codes "MICROSANDBOX_CLOUD_RUNTIME_READY_POLL_INTERVAL_MS") 500;
      }
