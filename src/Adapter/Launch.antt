-- ===== src/Adapter/Launch.antt =====
-- `createDetachedRuntime`, `start`, and the commands that they run in a sandbox.
use microsanbox_cloud.Prelude.{
  ℕ, zero, suc, ◌+◌, ◌-◌, ◌*◌, Bool, true, false, not, ◌&&◌, ◌||◌, List, [], ◌∷◌, ◌++◌, map, Option,
  none, some, Text, codes, ltb, ◌==◌, is_empty, if◌then◌else◌,
}
use microsanbox_cloud.Text.{includes}
use microsanbox_cloud.Effects.{
  Error, ok, err, Eff, pure, throw, ◌>>=◌, ◌>>◌, catch, backend, when◌then◌else◌,
}
use microsanbox_cloud.Database.{RuntimeSecretRecord}
use microsanbox_cloud.Shell.{build_launch_script}
use microsanbox_cloud.Paths.{parent_directories, bootstrap_directories}
use microsanbox_cloud.Control.Types.{RuntimeFileDto, CreateRuntimeInput, MountInput}
use microsanbox_cloud.Control.Spec.{or_else, and_then, is_true}
use microsanbox_cloud.Control.Build.{positive}
use microsanbox_cloud.Adapter.SshFiles.{
  build_authorized_keys_content, read_binary, read_gateway_public_key,
}
use microsanbox_cloud.Adapter.Library.{
  Library, ExecOutput, SecretCall, PatchCall, SandboxConfig, finally, best_effort, env, value,
  placeholder, allow_host, allow_host_pattern, allow_any_host_dangerous, require_tls_identity,
  inject_headers, inject_basic_auth, inject_query, inject_body, mkdir, text,
}

unfoldable pub is_retryable_exec_error : Error → Bool
unfolding includes
is_retryable_exec_error (backend message) =
    includes (codes "exec session ended without exit event") message
    || includes (codes "sandbox exec timed out") message
is_retryable_exec_error _ = false

-- A call on the builder where the flag is a Boolean.
abbrev flag_call : (Bool → SecretCall) → Option Bool → List SecretCall
flag_call call none = []
flag_call call (some b) = call b ∷ []

abbrev placeholder_call : Option Text → List SecretCall
placeholder_call none = []
placeholder_call (some t) = if is_empty t then [] else placeholder t ∷ []

unfoldable pub apply_secret : RuntimeSecretRecord → List SecretCall
apply_secret secret =
    env secret.env
    ∷ value secret.value
    ∷ (placeholder_call secret.placeholder
        ++ (map allow_host secret.allowed_hosts
            ++ (map allow_host_pattern secret.allowed_host_patterns
                ++ ((if is_true secret.allow_any_host_dangerous
                      then allow_any_host_dangerous true ∷ []
                      else [])
                    ++ (flag_call require_tls_identity secret.require_tls_identity
                        ++ (flag_call inject_headers secret.inject_headers
                            ++ (flag_call inject_basic_auth secret.inject_basic_auth
                                ++ (flag_call inject_query secret.inject_query
                                    ++ flag_call inject_body secret.inject_body))))))))

unfoldable pub file_patch : List RuntimeFileDto → List PatchCall
file_patch [] = []
file_patch (file ∷ files) =
    map mkdir (parent_directories file.path) ++ (text file.path file.content ∷ file_patch files)

unfoldable pub build_bootstrap_patch :
    List RuntimeFileDto → Option Text → List MountInput → List PatchCall
unfolding file_patch
build_bootstrap_patch files working_dir mounts =
    map mkdir (bootstrap_directories working_dir (map (λ m. m.mount_path) mounts))
    ++ file_patch files

-- `if (text)`
abbrev nonempty_text : Option Text → Option Text
nonempty_text none = none
nonempty_text (some t) = if is_empty t then none else some t

unfoldable pub sandbox_config : CreateRuntimeInput → SandboxConfig
unfolding apply_secret build_bootstrap_patch
sandbox_config input = record {
  name = input.sandbox_name;
  image = input.image;
  cpus = input.resources.cpu;
  memory_mib = input.resources.memory_mib;
  patch = build_bootstrap_patch input.files input.working_dir input.mounts;
  envs = input.env;
  auth = and_then input.registry_auth (λ a. some (a.username, a.password));
  ports =
      map
        (λ p. record {
          protocol = p.protocol;
          host_port = p.host_port;
          container_port = p.container_port;
        })
        input.ports;
  secrets = map apply_secret input.secrets;
  work_dir = nonempty_text input.working_dir;
  idle_timeout = and_then (positive input.auto_stop_minutes) (λ minutes. some (minutes * 60));
  volumes =
      map
        (λ m. record {
          mount_path = m.mount_path;
          volume_name = m.volume_name;
          read_only = m.read_only;
        })
        input.mounts;
}

module _ {W H B : Type 0} (lib : Library W H B) where
  -- `Promise.race` with a timer: an effect that takes longer counts as failed with the message.
  -- The promise that lost the race is not cancelled, so its changes are kept.
  unfoldable pub with_timeout : {A : Type 0} → Eff W A → ℕ → Text → Eff W A
  with_timeout m timeout_ms message w =
      if ltb timeout_ms (lib.clock (m w).1 - lib.clock w)
      then (err (backend message), (m w).1)
      else m w

  unfoldable pub exec_with_timeout : B → Text → List Text → Eff W ExecOutput
  unfolding with_timeout
  exec_with_timeout sandbox command args =
      with_timeout (lib.exec sandbox command args) 5000
        (codes "sandbox exec timed out after 5000ms")

  abbrev pub delay : ℕ → Eff W (Unit {0})
  delay ms w = (ok tt, lib.delay ms w)

  -- The rounds of the loop from an attempt on, with the last error.
  unfoldable pub attempts : ℕ → ℕ → Error → B → Text → List Text → Eff W ExecOutput
  unfolding exec_with_timeout is_retryable_exec_error
  attempts zero attempt last sandbox command args = throw last
  attempts (suc left) attempt last sandbox command args =
      catch (exec_with_timeout sandbox command args) λ e.
        when not (is_retryable_exec_error e) || attempt == 3
        then throw e
        else (delay (250 * attempt) >> attempts left (attempt + 1) e sandbox command args)

  -- `lastError` is undefined before the first attempt.
  unfoldable pub exec_with_transient_retry : B → Text → List Text → Eff W ExecOutput
  unfolding attempts
  exec_with_transient_retry = attempts 3 1 (backend [])

  unfoldable pub launch_managed_command :
      B → Option (List Text) → Option Text → Bool → Eff W (Unit {0})
  unfolding exec_with_transient_retry build_launch_script
  launch_managed_command sandbox command working_dir ssh =
      when is_empty (or_else command []) && not ssh
      then pure tt
      else (exec_with_transient_retry sandbox (codes "sh")
            (codes "-lc" ∷ build_launch_script command working_dir ssh ∷ [])
          >> pure tt)

  unfoldable pub detach_best_effort : B → Eff W (Unit {0})
  unfolding with_timeout best_effort
  detach_best_effort sandbox =
      best_effort
        (with_timeout (lib.detach sandbox) 2000 (codes "sandbox detach timed out after 2000ms"))

  unfoldable pub authorized_keys : Text → Text
  unfolding build_authorized_keys_content
  authorized_keys key = if is_empty key then [] else build_authorized_keys_content (key ∷ [])

  unfoldable pub key_script : Text
  key_script =
      codes
        "if command -v ssh-keygen >/dev/null 2>&1; then ssh-keygen -t ed25519 -f /etc/ssh/host_key -N \"\"; fi"

  unfoldable pub inject_with : B → Text → Eff W (Unit {0})
  unfolding exec_with_transient_retry best_effort authorized_keys key_script read_gateway_public_key
  inject_with sandbox binary = do
    lib.write sandbox (codes "/usr/local/sbin/inject-sshd") binary
    exec_with_transient_retry sandbox (codes "chmod")
        (codes "+x" ∷ codes "/usr/local/sbin/inject-sshd" ∷ [])
    key ← read_gateway_public_key lib
    best_effort (lib.mkdir sandbox (codes "/root/.ssh"))
    lib.write sandbox (codes "/root/.ssh/authorized_keys") (authorized_keys key)
    best_effort
        (exec_with_transient_retry sandbox (codes "sh") (codes "-c" ∷ key_script ∷ []) >> pure tt)

  -- Without the binary nothing is injected.
  unfoldable pub inject_ssh_binary : B → Eff W (Unit {0})
  unfolding inject_with read_binary
  inject_ssh_binary sandbox = do
    binary ← read_binary lib none
    (when is_empty binary then pure tt else inject_with sandbox binary)

  unfoldable pub set_up_ssh : B → Bool → Eff W (Unit {0})
  unfolding inject_ssh_binary best_effort
  set_up_ssh sandbox ssh = when ssh then best_effort (inject_ssh_binary sandbox) else pure tt

  unfoldable pub create_detached_runtime : CreateRuntimeInput → Eff W (Unit {0})
  unfolding sandbox_config set_up_ssh launch_managed_command detach_best_effort finally
  create_detached_runtime input = do
    sandbox ← lib.create (sandbox_config input)
    finally
        (set_up_ssh sandbox input.ssh
          >> launch_managed_command sandbox input.command input.working_dir input.ssh)
        (detach_best_effort sandbox)

  -- `start` launches the command without SSH.
  unfoldable pub start : Text → Option (List Text) → Option Text → Eff W (Unit {0})
  unfolding launch_managed_command finally
  start name command working_dir = do
    handle ← lib.get_sandbox name
    sandbox ← lib.start_detached handle
    finally (launch_managed_command sandbox command working_dir false) (lib.detach sandbox)
