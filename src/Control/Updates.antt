-- ===== src/Control/Updates.antt =====
-- `update` on a sandbox that `buildSpec` gave an SSH port.
use microsanbox_cloud.Prelude.{
  ◌≡◌, refl, ap, Bool, true, false, not, ◌&&◌, List, [], ◌∷◌, ◌++◌, map, Option, none, some, Text,
  arith, any, Bool-cases, inl, inr, ◌==◌,
}
use microsanbox_cloud.Database.{RuntimeEntity, RuntimePortBindingRecord, RuntimeVolumeMountRecord}
use microsanbox_cloud.Config.{AppConfig}
use microsanbox_cloud.Control.Types.{EnsureRuntimeDto, MountInput, RuntimeSpec}
use microsanbox_cloud.Control.Json.{list_eq, json_binding_eq, port_bindings_equal}
use microsanbox_cloud.Control.Spec.{resolve_port, resolve_ports, with_ssh, ssh_binding}
use microsanbox_cloud.Control.Build.{
  unassigned, assemble_spec, port_dto, build_update_input, with_host_ports, requires_recreate,
}
use microsanbox_cloud.Control.Stable.{is_appended, json_binding_eq-appended}

map-append {ℓ κ} :
    {A : Type ℓ} {B : Type κ} (f : A → B) (xs ys : List A) → map f (xs ++ ys) ≡ map f xs ++ map f ys
map-append f [] ys = refl
map-append f (x ∷ xs) ys = ap (λ zs. f x ∷ zs) (map-append f xs ys)

requires_recreate_of_ports :
    (runtime : RuntimeEntity) (spec : RuntimeSpec) (name : Option Text)
    → port_bindings_equal runtime.port_bindings
        (with_host_ports runtime runtime.port_bindings spec.ports)
      ≡ false
    → requires_recreate runtime spec name ≡ true
unfolding requires_recreate
requires_recreate_of_ports runtime spec name h = rw h (ground arith)

-- What `with_ssh` adds.
ssh_rest :
    (ssh : Bool) (ports : List RuntimePortBindingRecord)
    → (rest : List RuntimePortBindingRecord) × (with_ssh ssh ports ≡ ports ++ rest)
unfolding with_ssh
ssh_rest ssh ports = elim (Bool-cases (ssh && not (any (λ p. p.container_port == 22) ports))) [
  | inl e ↦ (ssh_binding ∷ [], rw e refl)
  | inr e ↦ ([], rw e (append_nil ports))
]
  where
    append_nil : (xs : List RuntimePortBindingRecord) → xs ≡ xs ++ []
    append_nil [] = refl
    append_nil (x ∷ xs) = ap (λ ys. x ∷ ys) (append_nil xs)

-- The bindings of a row, as an update without ports asks for them.
abbrev requested : List RuntimePortBindingRecord → List RuntimePortBindingRecord
requested bindings = map unassigned (map resolve_port (map port_dto bindings))

differ :
    (r : RuntimeEntity) (bindings rest : List RuntimePortBindingRecord)
    → any is_appended bindings ≡ true
    → list_eq json_binding_eq bindings (with_host_ports r bindings (requested bindings ++ rest))
      ≡ false
unfolding list_eq with_host_ports resolve_port
differ r [] rest h = absurd (ground (arith, h))
differ r (b ∷ bindings) rest h = elim (Bool-cases (is_appended b)) [
  | inl e ↦
      rw
        (json_binding_eq-appended b
          (record (unassigned (resolve_port (port_dto b))) { host_port = b.host_port }) e refl)
        refl
  | inr e ↦
      let later : any is_appended bindings ≡ true = rw e at h in
      rw (differ r bindings rest later) (and_false _)
]
  where
    and_false : (x : Bool) → (x && false) ≡ false
    and_false x = ground arith

-- The bindings differ from those that the update asks for.
changed :
    (config : AppConfig) (runtime : RuntimeEntity) (bindings : List RuntimePortBindingRecord)
    → any is_appended bindings ≡ true
    → port_bindings_equal bindings (
        with_host_ports runtime bindings (
          map unassigned
            (with_ssh true (resolve_ports config (some (map port_dto bindings)) none))))
      ≡ false
unfolding port_bindings_equal resolve_ports
changed config runtime [] h = absurd (ground (arith, h))
changed config runtime (b ∷ bindings) h =
    let (rest, e) = ssh_rest true (map resolve_port (map port_dto (b ∷ bindings))) in
    rw (e, map-append unassigned (map resolve_port (map port_dto (b ∷ bindings))) rest)
      (differ runtime (b ∷ bindings) (map unassigned rest) h)

-- Every update that names no ports recreates a sandbox that `buildSpec` gave its SSH port, also
-- where nothing in the specification changes.
pub requires_recreate-appended :
    (config : AppConfig) (runtime : RuntimeEntity) (input : EnsureRuntimeDto)
    (volumes : List RuntimeVolumeMountRecord × List MountInput) (name : Option Text)
    → input.ports ≡ none
    → any is_appended runtime.port_bindings ≡ true
    → requires_recreate runtime
        (assemble_spec config (build_update_input runtime input) volumes)
        name
      ≡ true
unfolding assemble_spec build_update_input
requires_recreate-appended config runtime input volumes name given h =
    requires_recreate_of_ports runtime _ name
      (rw given (changed config runtime runtime.port_bindings h))
