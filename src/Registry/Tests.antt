-- ===== src/Registry/Tests.antt =====
-- The registry at concrete tables.
use microsanbox_cloud.Prelude.{
  ℕ, ◌≡◌, refl, false, [], ◌∷◌, ◌++◌, map, none, codes, if◌then◌else◌, leb, length, take, text_eq,
  Bool,
}
use microsanbox_cloud.Effects.{Error, ok, err, no_free_ports}
use microsanbox_cloud.Database.{
  Db, SignedPreviewTokenEntity, RuntimeEntity, RuntimeStatus, Protocol,
}
use microsanbox_cloud.Config.{AppConfig}
use microsanbox_cloud.Registry.{
  lease_ports, lease_row, is_leased, on_port, local_host_id, release_ports, delete_runtime,
}
use microsanbox_cloud.Registry.Ports.{available}
use microsanbox_cloud.Registry.Leases.{others, lease_ports_lem}
use microsanbox_cloud.Registry.Unordered.{table_of, lease_open, lease_ports-lease_open}
use microsanbox_cloud.Registry.Apart.{Exclusive}
use microsanbox_cloud.Registry.Exclusive.{
  IsGranted, lease_ports-IsGranted, lease_ports-Exclusive, lease_ports-forgets, release-Exclusive,
}
use microsanbox_cloud.Registry.Tokens.{create_signed_preview_token, new_token}

-- The ports 31000 to 31003.
abbrev pub four_ports : AppConfig
four_ports = record {
  runtime_host_name = codes "local";
  runtime_host_base_url = codes "http://127.0.0.1:3210";
  runtime_host_public_base_url = codes "http://localhost:3210";
  proxy_base_url = codes "http://localhost:3210";
  sandbox_name_prefix = codes "runtime";
  volume_name_prefix = codes "runtime-data";
  port_range_start = 31000;
  port_range_end = 31003;
  default_exposed_port = 8080;
  default_cpu = 1;
  default_memory_mib = 2048;
  default_disk_gib = 6;
  default_image = codes "nginx:stable-alpine";
  connection_ttl_seconds = 600;
  runtime_ready_timeout_ms = 3;
  runtime_ready_poll_interval_ms = 1;
}

abbrev pub nothing : Db
nothing = record { hosts = []; runtimes = []; leases = []; volumes = []; preview_tokens = [] }

abbrev pub accepts : ℕ → Bool
accepts port = false

-- Runtime `a` holds the port 31001.
abbrev pub one_leased : Db
one_leased = record nothing { leases = lease_row (codes "a") 31001 ∷ [] }

abbrev pub runtime_a : RuntimeEntity
runtime_a = record {
  id = codes "a";
  sandbox_id = codes "a";
  name = none;
  sandbox_name = codes "runtime-a";
  runtime_host_id = local_host_id;
  port_bindings = [];
  primary_port = 8080;
  host_port = 0;
  primary_port_protocol = Protocol.tcp;
  is_public = false;
  auth_token = codes "token-a";
  status = RuntimeStatus.running;
  image = codes "image:a";
  command = none;
  environment = [];
  secrets = [];
  working_dir = none;
  mounts = [];
  cpu = 1;
  memory_mib = 512;
  disk_gib = 2;
  auto_stop_minutes = none;
  ephemeral = false;
  last_active_at = none;
  status_reason = none;
}

two_more : lease_ports four_ports accepts (codes "b") 2 one_leased ≡ (
  ok (31000 ∷ 31002 ∷ []),
  record one_leased {
    leases =
        lease_row (codes "a") 31001
        ∷ lease_row (codes "b") 31000
        ∷ lease_row (codes "b") 31002
        ∷ [];
  },
)
unfolding lease_ports is_leased lease_row text_eq local_host_id
two_more = refl

too_many : lease_ports four_ports accepts (codes "a") 4 one_leased ≡ (err no_free_ports, nothing)
unfolding lease_ports is_leased lease_row text_eq local_host_id
too_many = refl

one_leased-Exclusive : Exclusive one_leased.leases
one_leased-Exclusive = (tt, tt)

lease_ports_lem_example : lease_ports four_ports accepts (codes "b") 2 one_leased ≡ (
    if leb 2 (length (available four_ports accepts one_leased.leases))
    then (
      ok (take 2 (available four_ports accepts one_leased.leases)),
      record one_leased {
        leases =
            one_leased.leases
            ++ map
                (lease_row (codes "b"))
                (take 2 (available four_ports accepts one_leased.leases));
      },
    )
    else (err no_free_ports, record one_leased { leases = others (codes "b") one_leased.leases }))
lease_ports_lem_example = lease_ports_lem four_ports accepts (codes "b") 2 one_leased

lease_ports-IsGranted_example :
    IsGranted four_ports (codes "b") 2 one_leased (31000 ∷ 31002 ∷ []) (record one_leased {
      leases =
          lease_row (codes "a") 31001
          ∷ lease_row (codes "b") 31000
          ∷ lease_row (codes "b") 31002
          ∷ [];
    })
lease_ports-IsGranted_example =
    lease_ports-IsGranted four_ports accepts (codes "b") 2 one_leased _ _ two_more

lease_ports-Exclusive_example :
    Exclusive (lease_ports four_ports accepts (codes "b") 2 one_leased).1.leases
lease_ports-Exclusive_example =
    lease_ports-Exclusive four_ports accepts (codes "b") 2 one_leased one_leased-Exclusive

lease_ports-forgets_example :
    (◌≡◌ {A = Error} no_free_ports no_free_ports) × (is_leased 31001 [] ≡ false)
unfolding on_port lease_row text_eq local_host_id
lease_ports-forgets_example =
    lease_ports-forgets four_ports accepts (codes "a") 4 one_leased 31001 no_free_ports nothing
      one_leased-Exclusive refl too_many

release-Exclusive_example :
    Exclusive (release_ports (codes "a") one_leased).leases
    × Exclusive (delete_runtime runtime_a one_leased).leases
release-Exclusive_example = release-Exclusive runtime_a (codes "a") one_leased one_leased-Exclusive

abbrev pub token_row : SignedPreviewTokenEntity
token_row = new_token 5000 (codes "t1") (codes "a") 8080 600

token_made :
    create_signed_preview_token 5000 (codes "t1") (codes "a") 8080 600 nothing
    ≡ (ok token_row, record nothing { preview_tokens = token_row ∷ [] })
unfolding create_signed_preview_token
token_made = refl

lease_ports-lease_open_example :
    (
      (lease_ports four_ports (λ port. false) (codes "b") 2 one_leased).0,
      table_of (lease_ports four_ports (λ port. false) (codes "b") 2 one_leased).1,
    )
    ≡ lease_open four_ports (λ port. false) (codes "b") 2 (table_of one_leased)
lease_ports-lease_open_example =
    lease_ports-lease_open four_ports (λ port. false) (codes "b") 2 one_leased
