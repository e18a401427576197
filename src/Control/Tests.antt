-- ===== src/Control/Tests.antt =====
-- The control service over a world that is a clock, with a backend that always succeeds.
use microsanbox_cloud.Registry.Volumes.{find_volume_by_id_or_name, save_volume, delete_volume}
use microsanbox_cloud.Control.Atomic.{IsAtomic, create_volume-IsAtomic, create_volume-remove_volume}
use microsanbox_cloud.Control.Volumes.{create_volume, remove_volume}
use microsanbox_cloud.Effects.{throw, backend}
use microsanbox_cloud.Database.{VolumeEntity}
use microsanbox_cloud.Control.Ports.{assign_ports}
use microsanbox_cloud.Control.Build.{build_spec, first_port_binding}
use microsanbox_cloud.Identity.{normalize_sandbox_id, sandbox_name, volume_name}
use microsanbox_cloud.Text.{trim, replace_runs, to_lower_case}
use microsanbox_cloud.Registry.{
  create_sandbox_id, normalize_name, find_runtime_by_sandbox_id, find_runtime_by_sandbox_id_or_name,
  sandbox_name as registered_name, save_runtime, lease_ports, local_host_id, update_runtime,
  volume_backend_name,
}
use microsanbox_cloud.Control.Lifecycle.{ensure}
use microsanbox_cloud.Prelude.{
  text_eq, refl, leb, arith, ℕ, ◌+◌, true, false, List, [], ◌∷◌, none, some, codes,
}
use microsanbox_cloud.Effects.{pure, ok, after, when◌then◌else◌, recover}
use microsanbox_cloud.Config.{AppConfig}
use microsanbox_cloud.Control.Spec.{and_then, resolve_volumes, with_ssh, resolve_ports}
use microsanbox_cloud.Control.Lookup.{lookup}
use microsanbox_cloud.Prelude.{map}
use microsanbox_cloud.Control.Health.{wait_for_healthy}
use microsanbox_cloud.Control.Waiting.{IsClock}
use microsanbox_cloud.Control.Ready.{IsReady, wait_for_healthy-ready}
use microsanbox_cloud.Registry.Apart.{Exclusive}
use microsanbox_cloud.Registry.Tests.{four_ports, nothing}
use microsanbox_cloud.Control.Types.{Backend, Service, EnsureRuntimeDto}
use microsanbox_cloud.Guards.{can_activate, header_token, AuthHeader, single, absent}
use microsanbox_cloud.Effects.{err, unauthorized}
use microsanbox_cloud.Prelude.{◌≡◌, false}
use microsanbox_cloud.Control.Routes.{
  sandbox_route, volume_route, get_health, Route, respond, post_sandboxes, post_ensure, post_stop,
  post_volume, delete_sandbox,
}
use microsanbox_cloud.Control.Guarding.{needs_token, respond-eq}
use microsanbox_cloud.Control.Requests.{serve_all, serve_all-Exclusive}

abbrev pub willing : Backend ℕ
willing = record {
  list_cached_images = pure [];
  pull_image = λ reference auth. pure (
    record {
      reference = reference;
      architecture = none;
      os = none;
      size_bytes = none;
      layer_count = 1;
    },
    false,
  );
  ensure_volume = λ name size. pure tt;
  remove_volume = λ name. pure tt;
  create_detached_runtime = λ input. pure tt;
  start = λ name command dir. pure tt;
  stop = λ name. pure tt;
  remove = λ name. pure tt;
  exec = λ name command args. pure (record { stdout = []; stderr = []; exit_code = 0 });
  refresh_activity = λ name. pure tt;
  write_files = λ name files. pure tt;
  read_files = λ name paths. pure [];
  get_status = λ name. pure (some (codes "running"));
  is_healthy = λ port. pure true;
  now = λ clock. (clock, clock + 1);
  sleep = λ ms clock. clock + ms;
  draw = λ size clock. (clock ∷ [], clock + 1);
  new_id = λ clock. (clock ∷ [], clock + 1);
  refuses = λ clock port. false;
}

abbrev pub empty_body : EnsureRuntimeDto
empty_body = record {
  sandbox_id = none;
  name = none;
  image = none;
  command = none;
  env = none;
  files = none;
  secrets = none;
  working_dir = none;
  primary_port = none;
  ports = none;
  resources = none;
  volumes = none;
  registry_auth = none;
  is_public = none;
  auto_stop_minutes = none;
  ephemeral = none;
  ssh_enabled = none;
  force_recreate = none;
  refresh_activity = none;
}

abbrev pub at_start : Service ℕ
at_start = record { db = nothing; world = 1000 }

abbrev with_key : AuthHeader
with_key = single (codes "Bearer key")

abbrev pub one_life : List (AuthHeader × Route)
one_life =
    (with_key, sandbox_route (post_sandboxes (record empty_body { name = some (codes "box") })))
    ∷ (with_key, sandbox_route (post_stop (codes "box")))
    ∷ (absent, sandbox_route (post_stop (codes "box")))
    ∷ (with_key, volume_route (post_volume (record { name = codes "data"; quota_mib = none })))
    ∷ (absent, get_health)
    ∷ (with_key, sandbox_route (delete_sandbox (codes "box")))
    ∷ []

serve_all-Exclusive_example :
    Exclusive (serve_all four_ports willing (codes "key") one_life at_start).db.leases
serve_all-Exclusive_example =
    serve_all-Exclusive four_ports willing (codes "key") one_life at_start tt

respond-eq_example :
    respond four_ports willing
      (codes "key")
      absent
      (sandbox_route (delete_sandbox (codes "box")))
      at_start
    ≡ (err unauthorized, at_start)
unfolding needs_token can_activate header_token text_eq
respond-eq_example =
    respond-eq four_ports willing (codes "key") absent
      (sandbox_route (delete_sandbox (codes "box"))) at_start

-- A port that answers from the time 1002 on.
abbrev warming : Backend ℕ
warming = record willing { is_healthy = λ port clock. (ok (leb 1002 clock), clock) }

warming-IsClock : IsClock warming (λ clock. clock)
warming-IsClock = record {
  read = λ w. refl;
  read_kept = λ w. omega arith;
  slept = λ ms w. omega arith;
  checked = λ port w. omega arith;
}

warming-IsReady : IsReady four_ports warming (λ clock. clock) 31000 1002 1
warming-IsReady = record {
  answers = λ w. (leb 1002 w, refl);
  healthy_from = λ w h. ground (arith, h);
  round_ends = λ w. omega arith;
}

wait_for_healthy-ready_example : (wait_for_healthy four_ports warming 31000 at_start).0 ≡ ok true
wait_for_healthy-ready_example =
    wait_for_healthy-ready four_ports warming (λ clock. clock) warming-IsClock (omega arith) 31000
      1002 1 warming-IsReady at_start (omega arith)

abbrev eight_ports : AppConfig
eight_ports = record four_ports { port_range_end = four_ports.port_range_start + 7 }

-- Sandbox `a` is named `web`, and then a sandbox is made whose id is `web`.
abbrev two_webs : Service ℕ
two_webs =
    serve_all eight_ports willing []
      ((
        absent,
        sandbox_route (
            post_ensure
              (record empty_body { sandbox_id = some (codes "a"); name = some (codes "web") })),
      )
        ∷ (
          absent,
          sandbox_route (post_ensure (record empty_body { sandbox_id = some (codes "web") })),
        )
        ∷ [])
      at_start

-- The sandbox with the id `web` is there, but the text `web` finds sandbox `a`.
web_hidden :
    (map (λ r. r.sandbox_id) two_webs.db.runtimes ≡ codes "a" ∷ codes "web" ∷ [])
    × (and_then (lookup (codes "web") two_webs.db) (λ r. some r.sandbox_id) ≡ some (codes "a"))
unfolding serve_all after can_activate ensure create_sandbox_id when◌then◌else◌ trim
    normalize_sandbox_id replace_runs to_lower_case normalize_name find_runtime_by_sandbox_id
    build_spec resolve_volumes first_port_binding with_ssh resolve_ports
    find_runtime_by_sandbox_id_or_name sandbox_name registered_name save_runtime recover lease_ports
    text_eq local_host_id assign_ports wait_for_healthy update_runtime
web_hidden = (refl, refl)

abbrev with_data : Service ℕ
with_data = record at_start {
  db = record nothing {
    volumes =
        record {
          id = codes "1";
          name = codes "data";
          backend_name = codes "runtime-data-data";
          quota_mib = none;
        }
        ∷ [];
  };
}

-- The volumes cannot be made.
abbrev full_disk : Backend ℕ
full_disk = record willing { ensure_volume = λ name size. throw (backend (codes "no space")) }

create_volume-IsAtomic_example :
    IsAtomic
      (codes "Logs")
      (some 64)
      with_data.db
      (create_volume full_disk four_ports (codes "Logs") (some 64) with_data)
unfolding text_eq
create_volume-IsAtomic_example =
    create_volume-IsAtomic full_disk (codes "Logs") (some 64) four_ports with_data refl

abbrev logs : VolumeEntity
logs = record {
  id = 1000 ∷ [];
  name = codes "logs";
  backend_name = codes "runtime-data-logs";
  quota_mib = some 64;
}

abbrev with_logs : Service ℕ
with_logs = record { db = record nothing { volumes = logs ∷ with_data.db.volumes }; world = 1001 }

create_volume-remove_volume_example :
    (1000 ∷ [] ≡ logs.id) × ((record with_data { world = 1001 }).db ≡ with_data.db)
unfolding create_volume remove_volume text_eq after normalize_name when◌then◌else◌ trim
    normalize_sandbox_id replace_runs to_lower_case find_volume_by_id_or_name volume_backend_name
    volume_name save_volume recover delete_volume
create_volume-remove_volume_example =
    create_volume-remove_volume willing (codes "Logs") (some 64) four_ports with_data with_logs
      (record with_data { world = 1001 }) logs (1000 ∷ []) refl refl refl
