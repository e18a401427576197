-- ===== src/Control/Runs.antt =====
-- The control service at concrete states: what the theorems on single requests give there.
use microsanbox_cloud.Registry.Tokens.{get_signed_preview_token, has_signed_preview_token_expired}
use microsanbox_cloud.Identity
use microsanbox_cloud.Registry
use microsanbox_cloud.Text.{
  strip_end, strip_start, replace_runs, to_lower_case, trim, is_space, lower,
}
use microsanbox_cloud.Identity.{normalize_sandbox_id}
use microsanbox_cloud.Registry.{
  find_runtime_by_sandbox_id_or_name, set_runtime_status, update_runtime, local_host_id,
  save_runtime, lease_ports, is_leased, delete_runtime,
}
use microsanbox_cloud.Prelude.{
  ℕ, ◌+◌, ◌*◌, ◌≡◌, refl, ◌↔◌, true, false, List, [], ◌∷◌, none, some, codes, arith, any, length,
  text_eq,
}
use microsanbox_cloud.Effects.{ok, ◌>>=◌, after, when◌then◌else◌, recover}
use microsanbox_cloud.Database.{
  RuntimeEntity, RuntimeStatus, StatusReason, RuntimePortBindingRecord,
}
use microsanbox_cloud.Registry.Tests.{four_ports, runtime_a, one_leased, token_row}
use microsanbox_cloud.Control.Types.{Service, RuntimeSpec}
use microsanbox_cloud.Control.Monad.{get_value}
use microsanbox_cloud.Control.Tests.{willing, empty_body, at_start}
use microsanbox_cloud.Control.Spec.{
  ssh_binding, resolve_port, primary_or_default, with_ssh, resolve_ports, build_runtime_files,
  build_runtime_secrets, normalize_registry_auth,
}
use microsanbox_cloud.Control.Build.{assemble_spec, build_update_input, requires_recreate}
use microsanbox_cloud.Control.Rows.{finished_row, new_row}
use microsanbox_cloud.Control.Ports.{assign_leased, assign_ports, lease}
use microsanbox_cloud.Control.Health.{wait_rounds, wait_for_healthy}
use microsanbox_cloud.Control.Provision.{create_row, lease_or_delete}
use microsanbox_cloud.Control.Lifecycle.{delete, require_running_runtime}
use microsanbox_cloud.Control.Preview.{validate_proxy_access_by_sandbox}
use microsanbox_cloud.Control.Specified.{
  IsSpecified, assemble_spec-IsSpecified, build_update_input-ssh, is_ssh,
}
use microsanbox_cloud.Control.Stable.{requires_recreate-finished_row}
use microsanbox_cloud.Control.Updates.{requires_recreate-appended}
use microsanbox_cloud.Control.Lookup.{lookup}
use microsanbox_cloud.Control.Access.{IsAdmitted, validate_proxy_access_iff}
use microsanbox_cloud.Control.Outcomes.{
  IsSaved, IsGone, delete-IsGone, require_running_runtime-IsRunning,
}
use microsanbox_cloud.Control.Links.{IsFollowed, signed_token-IsFollowed}
use microsanbox_cloud.Control.Preview.{validate_proxy_access_by_signed_token}
use microsanbox_cloud.Control.Ports.{merge_ports}
use microsanbox_cloud.Control.Build.{unassigned}
use microsanbox_cloud.Control.HostPorts.{merge_ports_lem}
use microsanbox_cloud.Prelude.{map, take, ◌++◌}
use microsanbox_cloud.Control.Leaks.{fresh-leases_twice}
use microsanbox_cloud.Control.Waiting.{IsClock, wait_for_healthy-bound}

-- The specification of an empty body: the default port and SSH.
abbrev plain : RuntimeSpec
plain = assemble_spec four_ports empty_body ([], [])

abbrev web_binding : RuntimePortBindingRecord
web_binding = resolve_port (primary_or_default four_ports none)

-- Sandbox `a`, with its default port and the port that `buildSpec` adds for SSH.
abbrev pub with_bindings : RuntimeEntity
with_bindings = record runtime_a {
  port_bindings =
      record web_binding { host_port = 31000 } ∷ record ssh_binding { host_port = 31001 } ∷ [];
}

abbrev pub one_box : Service ℕ
one_box = record {
  db = record one_leased { runtimes = with_bindings ∷ []; preview_tokens = token_row ∷ [] };
  world = 1000;
}

assemble_spec-IsSpecified_example : IsSpecified plain
assemble_spec-IsSpecified_example = assemble_spec-IsSpecified four_ports empty_body ([], [])

build_update_input-ssh_example :
    ((assemble_spec four_ports
        (build_update_input with_bindings (record empty_body { ssh_enabled = some false }))
        ([], [])).ssh
      ≡ true)
    × (any is_ssh
          (assemble_spec four_ports
            (build_update_input with_bindings (record empty_body { ssh_enabled = some false }))
            ([], [])).ports
        ≡ true)
build_update_input-ssh_example =
    build_update_input-ssh four_ports with_bindings (record empty_body { ssh_enabled = some false })
      ([], [])

requires_recreate-finished_row_example :
    requires_recreate
      (finished_row none plain
        (assign_leased (31000 ∷ 31001 ∷ []) plain.ports)
        web_binding
        (RuntimeStatus.running, StatusReason.provisioned)
        (some 5)
        runtime_a)
      plain
      none
    ≡ false
unfolding assemble_spec with_ssh resolve_ports
requires_recreate-finished_row_example =
    requires_recreate-finished_row none plain (31000 ∷ 31001 ∷ []) web_binding
      (RuntimeStatus.running, StatusReason.provisioned) (some 5) runtime_a refl

requires_recreate-appended_example :
    requires_recreate with_bindings
      (assemble_spec four_ports (build_update_input with_bindings empty_body) ([], []))
      none
    ≡ true
unfolding resolve_port
requires_recreate-appended_example =
    requires_recreate-appended four_ports with_bindings empty_body ([], []) none refl refl

validate_proxy_access_iff_example :
    (validate_proxy_access_by_sandbox (codes "A") 22 (some (codes "token-a")) one_box
      ≡ (ok (with_bindings, 31001), one_box))
    ↔ (IsAdmitted (codes "A") 22 (some (codes "token-a")) one_box with_bindings 31001
        × (one_box ≡ one_box))
validate_proxy_access_iff_example =
    validate_proxy_access_iff (codes "A") 22 (some (codes "token-a")) one_box with_bindings 31001
      one_box

delete-IsGone_example :
    (r : RuntimeEntity) × (lookup (codes "a") one_box.db ≡ some r)
    × (r.sandbox_id ≡ codes "a")
    × IsGone r (delete willing (codes "a") one_box).1.db
unfolding delete after find_runtime_by_sandbox_id_or_name normalize_sandbox_id strip_end strip_start
    replace_runs to_lower_case trim text_eq set_runtime_status update_runtime
delete-IsGone_example = delete-IsGone willing (codes "a") (codes "a") one_box _ refl

-- The row says that the sandbox has stopped, and the backend that it runs.
abbrev stopped_box : Service ℕ
stopped_box = record one_box {
  db = record one_box.db {
    runtimes = record with_bindings { status = RuntimeStatus.stopped } ∷ [];
  };
}

require_running_runtime-IsRunning_example :
    (o : RuntimeEntity) × (lookup (codes "a") stopped_box.db ≡ some o)
    × ((willing.get_status o.sandbox_name stopped_box.world).0 ≡ ok (some (codes "running")))
    × (with_bindings ≡ record o { status = RuntimeStatus.running })
    × IsSaved o with_bindings stopped_box.db one_box.db
unfolding require_running_runtime after find_runtime_by_sandbox_id_or_name normalize_sandbox_id
    strip_end strip_start replace_runs to_lower_case trim text_eq when◌then◌else◌ update_runtime
require_running_runtime-IsRunning_example =
    require_running_runtime-IsRunning willing (codes "a") stopped_box one_box with_bindings refl

-- The row and the ports of a new sandbox `b`.
abbrev new_box : RuntimeEntity
new_box =
    new_row (codes "b") none plain web_binding (codes "runtime-b") (1000 ∷ []) (1002 ∷ []) 1001

abbrev new_ports : List RuntimePortBindingRecord
new_ports = assign_leased (31000 ∷ 31001 ∷ []) plain.ports

abbrev after_row : Service ℕ
after_row = (create_row four_ports willing (codes "b") none plain web_binding at_start).1

made_row :
    create_row four_ports willing (codes "b") none plain web_binding at_start
    ≡ (ok (new_box, new_ports), after_row)
unfolding create_row after Registry.sandbox_name Identity.sandbox_name strip_end strip_start
    replace_runs to_lower_case trim save_runtime recover lease_ports is_leased assemble_spec
    with_ssh resolve_ports text_eq local_host_id assign_leased lease lease_or_delete new_row
    build_runtime_files build_runtime_secrets normalize_registry_auth primary_or_default
    resolve_port normalize_sandbox_id delete_runtime is_space lower assign_ports when◌then◌else◌
made_row = refl

leased_again : assign_ports four_ports willing new_box new_ports after_row ≡ (
  ok (assign_leased (31002 ∷ 31003 ∷ []) new_ports),
  (assign_ports four_ports willing new_box new_ports after_row).1,
)
unfolding create_row after Registry.sandbox_name Identity.sandbox_name strip_end strip_start
    replace_runs to_lower_case trim save_runtime recover lease_ports is_leased assemble_spec
    with_ssh resolve_ports text_eq local_host_id assign_leased lease lease_or_delete new_row
    build_runtime_files build_runtime_secrets normalize_registry_auth primary_or_default
    resolve_port normalize_sandbox_id delete_runtime is_space lower assign_ports when◌then◌else◌
leased_again = refl

-- Two ports, four leases.
fresh-leases_twice_example :
    length (assign_ports four_ports willing new_box new_ports after_row).1.db.leases ≡ 0 + 2 * 2
unfolding assemble_spec with_ssh resolve_ports
fresh-leases_twice_example =
    fresh-leases_twice four_ports willing (codes "b") none plain web_binding new_box new_ports
      (assign_leased (31002 ∷ 31003 ∷ []) new_ports) at_start after_row
      (assign_ports four_ports willing new_box new_ports after_row).1 made_row leased_again

willing-IsClock : IsClock willing (λ clock. clock)
willing-IsClock = record {
  read = λ w. refl;
  read_kept = λ w. omega arith;
  slept = λ ms w. omega arith;
  checked = λ port w. omega arith;
}

wait_for_healthy-bound_example :
    wait_for_healthy four_ports willing 31000 at_start
    ≡ (get_value willing.now >>= λ t. wait_rounds four_ports willing 11 (t + 3) 31000) at_start
wait_for_healthy-bound_example =
    wait_for_healthy-bound four_ports willing (λ clock. clock) willing-IsClock (omega arith) 31000 7
      at_start

-- The link to port 8080 of sandbox `a`, followed before it expires.
followed :
    validate_proxy_access_by_signed_token willing (codes "t1") 8080 one_box
    ≡ (ok (with_bindings, 31000), record one_box { world = 1001 })
unfolding validate_proxy_access_by_signed_token after get_signed_preview_token text_eq
    when◌then◌else◌ has_signed_preview_token_expired find_runtime_by_sandbox_id_or_name
    normalize_sandbox_id strip_end strip_start replace_runs to_lower_case trim resolve_port
    primary_or_default
followed = refl

signed_token-IsFollowed_example :
    IsFollowed willing
      (codes "t1")
      8080
      one_box
      (record one_box { world = 1001 })
      with_bindings
      31000
signed_token-IsFollowed_example =
    signed_token-IsFollowed willing (codes "t1") 8080 one_box (record one_box { world = 1001 })
      with_bindings 31000 followed

merge_ports_lem_example :
    (map (λ p. p.host_port) (merge_ports (web_binding ∷ []) (31002 ∷ []) plain.ports)
      ≡ take (length plain.ports) (map (λ p. p.host_port) (web_binding ∷ []) ++ 31002 ∷ []))
    × (map unassigned (merge_ports (web_binding ∷ []) (31002 ∷ []) plain.ports)
        ≡ map unassigned plain.ports)
unfolding assemble_spec with_ssh resolve_ports
merge_ports_lem_example = merge_ports_lem (web_binding ∷ []) (31002 ∷ []) plain.ports (omega arith)
