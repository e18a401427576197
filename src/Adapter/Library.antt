-- ===== src/Adapter/Library.antt =====
-- What the adapter uses: the microsandbox library, its command line tool, sockets, the clock and
-- the files of the SSH service. Handles and sandboxes are values of unknown types.
use microsanbox_cloud.Prelude.{ℕ, Bool, List, Option, Text}
use microsanbox_cloud.Effects.{Outcome, ok, err, Eff}
use microsanbox_cloud.Database.{Protocol}
use microsanbox_cloud.Control.Types.{ImageInfo}

-- The calls on the builder of a secret, in their order.
pub data SecretCall : Type 0 where
  env value placeholder allow_host allow_host_pattern : Text → SecretCall
  allow_any_host_dangerous require_tls_identity : Bool → SecretCall
  inject_headers inject_basic_auth inject_query inject_body : Bool → SecretCall

-- The calls on the builder of the bootstrap patch; directories have mode 755 and files 644.
pub data PatchCall : Type 0 where
  mkdir : Text → PatchCall
  text : Text → Text → PatchCall

pub record VolumeBinding : Type 0 where
  pub mount_path : Text
  pub volume_name : Text
  pub read_only : Bool

pub record PortForward : Type 0 where
  pub protocol : Protocol
  pub host_port : ℕ
  pub container_port : ℕ

-- What the builder of a sandbox is told; it replaces a sandbox of that name, and is detached.
pub record SandboxConfig : Type 0 where
  pub name : Text
  pub image : Text
  pub cpus : ℕ
  pub memory_mib : ℕ
  pub patch : List PatchCall
  pub envs : List (Text × Text)
  pub auth : Option (Text × Text)
  pub ports : List PortForward
  pub secrets : List (List SecretCall)
  pub work_dir : Option Text
  pub idle_timeout : Option ℕ
  pub volumes : List VolumeBinding

pub record ExecOutput : Type 0 where
  pub stdout : Text
  pub stderr : Text
  pub code : Option ℕ

-- What the started command line tool, `msb`, did first: it was not found, it failed to start, or it
-- ended with a code and what it wrote to the standard error.
pub data Spawned : Type 0 where
  not_found : Spawned
  failed : (message : Text) → Spawned
  closed : (code : Option ℕ) (stderr : Text) → Spawned

pub record Library (W H B : Type 0) : Type 0 where
  pub get_sandbox : Text → Eff W H
  pub status : H → Text
  pub connect : H → Eff W B
  pub start_detached : H → Eff W B
  pub stop : H → Eff W (Unit {0})
  pub kill : H → Eff W (Unit {0})
  pub remove : H → Eff W (Unit {0})
  pub create : SandboxConfig → Eff W B
  pub exec : B → Text → List Text → Eff W ExecOutput
  pub shell : B → Text → Eff W (Unit {0})
  pub detach : B → Eff W (Unit {0})
  pub write : B → Text → Text → Eff W (Unit {0})
  pub mkdir : B → Text → Eff W (Unit {0})
  pub read : B → Text → Eff W Text
  pub spawn : List Text → Option Text → W → Spawned × W
  pub is_installed : W → Bool
  pub list_images : Eff W (List ImageInfo)
  pub get_image : Text → Eff W ImageInfo
  pub get_volume : Text → Eff W (Unit {0})
  pub create_volume : Text → Option ℕ → Eff W (Unit {0})
  pub remove_volume : Text → Eff W (Unit {0})
  pub connects : ℕ → W → Bool × W
  pub clock : W → ℕ
  pub delay : ℕ → W → W
  pub cwd : Text
  pub arch : Text
  pub exists : Text → W → Bool
  pub read_file : Text → Eff W Text

-- `finally`: the second effect runs whatever the first one did, and its exception prevails.
unfoldable pub settled : {S A : Type 0} → Outcome A → Outcome (Unit {0}) × S → Outcome A × S
settled o (ok u, s) = (o, s)
settled o (err e, s) = (err e, s)

unfoldable pub finally : {S A : Type 0} → Eff S A → Eff S (Unit {0}) → Eff S A
unfolding settled
finally m last s = let (o, t) = m s in settled o (last t)

-- `.catch(() => undefined)`
unfoldable pub best_effort : {S : Type 0} → Eff S (Unit {0}) → Eff S (Unit {0})
best_effort m s = (ok tt, (m s).1)
