-- ===== src/Adapter/Tests.antt =====
-- The adapter over a library with one sandbox, whose first command fails transiently and that never
-- detaches, and a registry that wants a login.
use microsanbox_cloud.Prelude.{
  ℕ, ◌+◌, ◌≡◌, ◌⊎◌, refl, true, false, List, [], ◌∷◌, ◌++◌, none, some, Text, codes, text_eq, ltb,
  length, is_empty, if◌then◌else◌, arith,
}
use microsanbox_cloud.Text.{trim, join, ends_with, split}
use microsanbox_cloud.Effects.{ok, err, backend, recover, when◌then◌else◌, after}
use microsanbox_cloud.Control.Types.{
  ImageInfo, RuntimeRegistryAuthDto, RuntimeFileDto, CreateRuntimeInput,
}
use microsanbox_cloud.Registry.Tests.{four_ports}
use microsanbox_cloud.Adapter.Library.{Library, ExecOutput, closed}
use microsanbox_cloud.Adapter.SshFiles.{read_binary, read_gateway_public_key}
use microsanbox_cloud.Adapter.Launch.{exec_with_timeout, exec_with_transient_retry}
use microsanbox_cloud.Adapter.Stopping.{stop_rounds, wait_for_sandbox_stop}
use microsanbox_cloud.Adapter.Images.{pull_image}
use microsanbox_cloud.Adapter.Retry.{retrying, exec_with_transient_retry-eq-retrying}
use microsanbox_cloud.Adapter.Counting.{Calls, IsCounted}
use microsanbox_cloud.Adapter.Deadline.{
  IsLate, wait_for_sandbox_stop-rounds, wait_for_sandbox_stop-kills-IsLate,
}
use microsanbox_cloud.Adapter.Pulls.{Command, succeeded, login_args, IsPull, pull_image-commands}

pub record World : Type 0 where
  pub time : ℕ
  pub opened : ℕ
  pub detached : ℕ
  pub killed : ℕ
  pub execs : ℕ
  pub commands : List Command

abbrev pub first : World
first = record { time = 1000; opened = 0; detached = 0; killed = 0; execs = 0; commands = [] }

abbrev output : ExecOutput
output = record { stdout = codes "out"; stderr = []; code = some 0 }

abbrev image : ImageInfo
image = record {
  reference = codes "app";
  architecture = none;
  os = none;
  size_bytes = none;
  layer_count = 2;
}

-- A sandbox that never stops. The first pull finds no image, and the second one does.
abbrev pub host : Library World Text Text
host = record {
  get_sandbox = λ name w. (ok name, w);
  status = λ h. codes "running";
  connect = λ h w. (ok h, record w { opened = w.opened + 1 });
  start_detached = λ h w. (ok h, record w { opened = w.opened + 1 });
  stop = λ h w. (ok tt, w);
  kill = λ h w. (ok tt, record w { killed = w.killed + 1 });
  remove = λ h w. (ok tt, w);
  create = λ c w. (ok c.name, record w { opened = w.opened + 1 });
  exec = λ b command args w. (
    if ltb 0 w.execs
        then ok output
        else err (backend (codes "exec session ended without exit event")),
    record w { execs = w.execs + 1 },
  );
  shell = λ b script w. (ok tt, w);
  detach = λ b w. (err (backend (codes "no connection")), record w { detached = w.detached + 1 });
  write = λ b path content w. (ok tt, w);
  mkdir = λ b path w. (err (backend []), w);
  read = λ b path w. (ok (codes "text"), w);
  spawn = λ args stdin w.
      let process = closed (some (if is_empty w.commands then 1 else 0)) (codes "denied") in
      (process, record w { commands = w.commands ++ (args, succeeded process) ∷ [] });
  is_installed = λ w. true;
  list_images = λ w. (ok [], w);
  get_image = λ reference w.
      (if ltb 2 (length w.commands) then ok image else err (backend (codes "no image")), w);
  get_volume = λ name w. (ok tt, w);
  create_volume = λ name quota w. (ok tt, w);
  remove_volume = λ name w. (ok tt, w);
  connects = λ port w. (true, w);
  clock = λ w. w.time;
  delay = λ ms w. record w { time = w.time + ms + 1 };
  cwd = codes "/srv/apps/cloud-api";
  arch = codes "arm64";
  exists = λ path w. text_eq path (codes "/srv/data/ssh/inject-sshd.linux-arm64");
  read_file = λ path w. (ok (codes "binary"), w);
}

abbrev pub calls_of : World → Calls
calls_of w = record { opens = w.opened; detaches = w.detached }

exec_with_transient_retry-eq-retrying_example :
    exec_with_transient_retry host (codes "box") (codes "ls") [] first
    ≡ retrying host (250 ∷ 500 ∷ []) (exec_with_timeout host (codes "box") (codes "ls") []) first
exec_with_transient_retry-eq-retrying_example =
    exec_with_transient_retry-eq-retrying host (codes "box") (codes "ls") [] first

-- The second run succeeds.
second_run :
    exec_with_transient_retry host (codes "box") (codes "ls") [] first
    ≡ (ok output, record first { time = 1251; execs = 2 })
unfolding exec_with_transient_retry recover when◌then◌else◌ after
second_run = refl

pub host-IsCounted : IsCounted host calls_of
host-IsCounted = record {
  connect = λ h w. refl;
  start_detached = λ h w. refl;
  create = λ c w. refl;
  detach = λ b w. refl;
  get_sandbox = λ name w. refl;
  exec = λ b command args w. refl;
  shell = λ b script w. refl;
  write = λ b path content w. refl;
  mkdir = λ b path w. refl;
  read = λ b path w. refl;
  read_file = λ path w. refl;
  delay = λ ms w. refl;
}

abbrev box_input : CreateRuntimeInput
box_input = record {
  sandbox_name = codes "box";
  image = codes "app";
  registry_auth = none;
  command = some (codes "node" ∷ []);
  working_dir = none;
  ports = [];
  mounts = [];
  resources = record { cpu = 1; memory_mib = 512; disk_gib = 1 };
  env = [];
  secrets = [];
  files = [];
  auto_stop_minutes = none;
  ssh = true;
}

abbrev note : RuntimeFileDto
note = record { path = codes "/srv/note"; content = codes "text" }

abbrev killed_of : World → ℕ
killed_of w = w.killed

wait_for_sandbox_stop-rounds_example :
    stop_rounds four_ports host 14 1003 (codes "box") first
    ≡ wait_for_sandbox_stop four_ports host (codes "box") first
wait_for_sandbox_stop-rounds_example =
    wait_for_sandbox_stop-rounds four_ports host (λ name w. omega arith) (λ ms w. omega arith) 10
      (codes "box") first

wait_for_sandbox_stop-kills-IsLate_example :
    ((wait_for_sandbox_stop four_ports host (codes "box") first).1.killed ≡ 0)
    ⊎ IsLate four_ports host 1003 (codes "box") first
wait_for_sandbox_stop-kills-IsLate_example =
    wait_for_sandbox_stop-kills-IsLate four_ports host killed_of (λ name w. refl) (λ ms w. refl)
      (codes "box") first (omega arith)

-- The sandbox runs on after the wait.
waited :
    wait_for_sandbox_stop four_ports host (codes "box") first
    ≡ (ok tt, record first { time = 1004 })
unfolding wait_for_sandbox_stop after when◌then◌else◌ text_eq
waited = refl

abbrev login : RuntimeRegistryAuthDto
login = record { server = codes "hub"; username = codes "user"; password = codes "word" }

abbrev commands_of : World → List Command
commands_of w = w.commands

pull_image-commands_example :
    (ran : List Command) × ((pull_image host (codes " app ") (some login) first).1.commands ≡ ran)
    × IsPull
        (codes "app")
        (some login)
        (err (backend (codes "no image")))
        true
        (pull_image host (codes " app ") (some login) first).0
        ran
unfolding trim
pull_image-commands_example =
    pull_image-commands host commands_of (λ args stdin w. refl) (λ reference w. refl)
      (codes " app ") (some login) first

-- The second pull succeeds, between the login and the logout.
pulled_again :
    (pull_image host (codes "app") (some login) first).1.commands
    ≡ (codes "pull" ∷ codes "app" ∷ [], false)
      ∷ (login_args login, true)
      ∷ (codes "pull" ∷ codes "app" ∷ [], true)
      ∷ (codes "registry" ∷ codes "logout" ∷ codes "hub" ∷ [], true)
      ∷ []
unfolding pull_image when◌then◌else◌ trim recover after succeeded
pulled_again = refl

-- The binary is read in the repository, although the process runs in the application.
binary_read : read_binary host none first ≡ (ok (codes "binary"), first)
unfolding read_binary when◌then◌else◌ text_eq join ends_with split
binary_read = refl

-- The gateway has no key, so that no key is authorised.
key_missing : read_gateway_public_key host first ≡ (ok [], first)
unfolding read_gateway_public_key after when◌then◌else◌ text_eq join ends_with split trim
key_missing = refl
