-- ===== src/Control/Specified.antt =====
-- The ports of a specification that `buildSpec` makes.
use microsanbox_cloud.Prelude.{
  ◌≡◌, refl, Bool, true, not, ◌&&◌, List, [], ◌∷◌, ◌++◌, map, Option, none, some, ◌==◌, arith, any,
  any-append_last, All, Bool-cases, inl, inr,
}
use microsanbox_cloud.Effects.{ok}
use microsanbox_cloud.Database.{RuntimePortBindingRecord, RuntimeVolumeMountRecord, RuntimeEntity}
use microsanbox_cloud.Config.{AppConfig}
use microsanbox_cloud.Control.Types.{EnsureRuntimeDto, RuntimeSpec, MountInput, RuntimePortDto}
use microsanbox_cloud.Control.Spec.{is_false, resolve_port, resolve_ports, with_ssh, ssh_binding}
use microsanbox_cloud.Control.Build.{
  unassigned, assemble_spec, build_update_input, first_port_binding,
}

-- The binding leads to the port of the SSH daemon.
abbrev pub is_ssh : RuntimePortBindingRecord → Bool
is_ssh p = p.container_port == 22

any_ssh-unassigned :
    (ports : List RuntimePortBindingRecord) → any is_ssh (map unassigned ports) ≡ any is_ssh ports
any_ssh-unassigned [] = refl
any_ssh-unassigned (p ∷ ports) = ground (arith, any_ssh-unassigned ports)

any_ssh-with_ssh : (ports : List RuntimePortBindingRecord) → any is_ssh (with_ssh true ports) ≡ true
unfolding with_ssh
any_ssh-with_ssh ports = elim (Bool-cases (any is_ssh ports)) [
  | inl e ↦ rw e e
  | inr e ↦ rw e (any-append_last is_ssh ports ssh_binding refl)
]

All-unassigned :
    (ports : List RuntimePortBindingRecord) → All (λ p. p.host_port ≡ 0) (map unassigned ports)
All-unassigned [] = tt
All-unassigned (p ∷ ports) = (refl, All-unassigned ports)

-- `with_ssh` only adds a binding behind the others.
first_kept :
    (ssh : Bool) (p : RuntimePortBindingRecord) (ports : List RuntimePortBindingRecord)
    → (rest : List RuntimePortBindingRecord) × (with_ssh ssh (p ∷ ports) ≡ p ∷ rest)
unfolding with_ssh
first_kept ssh p ports = elim (Bool-cases (ssh && not (any is_ssh (p ∷ ports)))) [
  | inl e ↦ (ports ++ ssh_binding ∷ [], rw e refl)
  | inr e ↦ (ports, rw e refl)
]

resolved :
    (config : AppConfig) (given : Option (List RuntimePortDto)) (primary : Option RuntimePortDto)
    → (p : RuntimePortBindingRecord) × (ports : List RuntimePortBindingRecord) × (resolve_ports
          config given primary
        ≡ p ∷ ports)
unfolding resolve_ports
resolved config none primary = (_, [], refl)
resolved config (some []) primary = (_, [], refl)
resolved config (some (p ∷ ports)) primary = (resolve_port p, map resolve_port ports, refl)

-- What `provision` relies on in the ports of a specification.
pub record IsSpecified (spec : RuntimeSpec) : Type 1 where
  -- There is a primary port.
  pub first :
      {S : Type 0} (s : S)
      → (p : RuntimePortBindingRecord) × (first_port_binding spec.ports s ≡ (ok p, s))
  pub reachable : spec.ssh ≡ true → any is_ssh spec.ports ≡ true
  pub unassigned : All (λ p. p.host_port ≡ 0) spec.ports

-- Whatever the body of the request, the specification has a primary port, a port 22 where SSH is
-- on, and no host port yet.
pub assemble_spec-IsSpecified :
    (config : AppConfig) (input : EnsureRuntimeDto)
    (volumes : List RuntimeVolumeMountRecord × List MountInput)
    → IsSpecified (assemble_spec config input volumes)
unfolding assemble_spec first_port_binding
assemble_spec-IsSpecified config input volumes =
    let (p, ports, e) = resolved config input.ports input.primary_port in
    let (rest, f) = first_kept (not (is_false input.ssh_enabled)) p ports in
    record {
      first = λ s. (unassigned p, rw (e, f) refl);
      reachable = λ on.
          rw
            (
              any_ssh-unassigned (
                  with_ssh (not (is_false input.ssh_enabled))
                    (resolve_ports config input.ports input.primary_port)),
              on,
            )
            (any_ssh-with_ssh _);
      unassigned = All-unassigned _;
    }

-- An update of a sandbox always asks for SSH, whatever its body says of it: the specification has
-- SSH on and a port 22.
pub build_update_input-ssh :
    (config : AppConfig) (runtime : RuntimeEntity) (input : EnsureRuntimeDto)
    (volumes : List RuntimeVolumeMountRecord × List MountInput)
    → ((assemble_spec config (build_update_input runtime input) volumes).ssh ≡ true)
      × (any is_ssh (assemble_spec config (build_update_input runtime input) volumes).ports ≡ true)
unfolding assemble_spec build_update_input
build_update_input-ssh config runtime input volumes = (
  refl,
  (assemble_spec-IsSpecified config (build_update_input runtime input) volumes).reachable refl,
)
