-- ===== src/Control/Stable.antt =====
-- `requiresRecreate` on the row that `provision` writes for the same specification.
use microsanbox_cloud.Prelude.{
  ℕ, ◌≡◌, refl, ap, Bool, true, false, ◌&&◌, List, [], ◌∷◌, Option, none, some, Text, text_eq,
  text_eq_refl, option_text_eq, ◌==◌, arith, length, Option-cases, inl, inr,
}
use microsanbox_cloud.Database.{
  Protocol, tcp, udp, RuntimeStatus, StatusReason, RuntimeEntity, RuntimeSecretRecord,
  RuntimePortBindingRecord, RuntimeVolumeMountRecord,
}
use microsanbox_cloud.Control.Types.{RuntimeSpec}
use microsanbox_cloud.Control.Spec.{or_else}
use microsanbox_cloud.Control.Json.{
  list_eq, option_eq, bool_eq, protocol_eq, pair_eq, Property, property_eq, json_binding,
  json_binding_eq, json_secret_eq, json_mount_eq, port_bindings_equal, mount_records_equal, named,
  containing, hosting, speaking,
}
use microsanbox_cloud.Control.Build.{with_host_ports, requires_recreate}
use microsanbox_cloud.Control.Rows.{with_spec, finished_row}
use microsanbox_cloud.Control.Ports.{assign_leased}

list_eq_refl {ℓ} :
    {A : Type ℓ} (eq : A → A → Bool)
    → ((a : A) → eq a a ≡ true)
    → (xs : List A) → list_eq eq xs xs ≡ true
unfolding list_eq
list_eq_refl eq h [] = refl
list_eq_refl eq h (x ∷ xs) = rw (h x, list_eq_refl eq h xs) refl

option_eq_refl {ℓ} :
    {A : Type ℓ} (eq : A → A → Bool)
    → ((a : A) → eq a a ≡ true)
    → (x : Option A) → option_eq eq x x ≡ true
unfolding option_eq
option_eq_refl eq h none = refl
option_eq_refl eq h (some a) = h a

bool_eq_refl : (x : Bool) → bool_eq x x ≡ true
bool_eq_refl true = refl
bool_eq_refl false = refl

nat_eq_refl : (n : ℕ) → (n == n) ≡ true
nat_eq_refl n = ground arith

option_text_eq_refl : (x : Option Text) → option_text_eq x x ≡ true
option_text_eq_refl none = refl
option_text_eq_refl (some t) = text_eq_refl t

protocol_eq_refl : (p : Protocol) → protocol_eq p p ≡ true
protocol_eq_refl tcp = refl
protocol_eq_refl udp = refl

pair_eq_refl : (p : Text × Text) → pair_eq p p ≡ true
pair_eq_refl (k, v) = rw (text_eq_refl k, text_eq_refl v) refl

property_eq_refl : (p : Property) → property_eq p p ≡ true
property_eq_refl (named a) = text_eq_refl a
property_eq_refl (containing n) = nat_eq_refl n
property_eq_refl (hosting n) = nat_eq_refl n
property_eq_refl (speaking p) = protocol_eq_refl p

json_binding_eq_refl : (b : RuntimePortBindingRecord) → json_binding_eq b b ≡ true
unfolding json_binding_eq
json_binding_eq_refl b = list_eq_refl property_eq property_eq_refl (json_binding b)

json_secret_eq_refl : (s : RuntimeSecretRecord) → json_secret_eq s s ≡ true
unfolding json_secret_eq
json_secret_eq_refl s =
    rw
      (
        text_eq_refl s.env,
        text_eq_refl s.value,
        option_eq_refl text_eq text_eq_refl s.placeholder,
        list_eq_refl text_eq text_eq_refl s.allowed_hosts,
        list_eq_refl text_eq text_eq_refl s.allowed_host_patterns,
        option_eq_refl bool_eq bool_eq_refl s.allow_any_host_dangerous,
        option_eq_refl bool_eq bool_eq_refl s.require_tls_identity,
        option_eq_refl bool_eq bool_eq_refl s.inject_headers,
        option_eq_refl bool_eq bool_eq_refl s.inject_basic_auth,
        option_eq_refl bool_eq bool_eq_refl s.inject_query,
        option_eq_refl bool_eq bool_eq_refl s.inject_body,
      )
      refl

json_mount_eq_refl : (m : RuntimeVolumeMountRecord) → json_mount_eq m m ≡ true
unfolding json_mount_eq
json_mount_eq_refl m =
    rw
      (
        text_eq_refl m.volume_id,
        text_eq_refl m.volume_name,
        text_eq_refl m.mount_path,
        bool_eq_refl m.read_only,
      )
      refl

-- The host ports of bindings that were assigned to these ports are theirs.
with_host_ports-assign_leased :
    (r : RuntimeEntity) (leased : List ℕ) (ports : List RuntimePortBindingRecord)
    → length leased ≡ length ports
    → with_host_ports r (assign_leased leased ports) ports ≡ assign_leased leased ports
unfolding with_host_ports assign_leased
with_host_ports-assign_leased r leased [] h = refl
with_host_ports-assign_leased r [] (p ∷ ports) h = absurd (omega (arith, h))
with_host_ports-assign_leased r (n ∷ leased) (p ∷ ports) h =
    ap (λ rest. record p { host_port = n } ∷ rest)
      (with_host_ports-assign_leased r leased ports (omega (arith, h)))

-- A runtime that was started for a specification with as many host ports as it has ports does not
-- have to be recreated for the same specification and name, whatever the health checks said.
pub requires_recreate-finished_row :
    (name : Option Text) (spec : RuntimeSpec) (leased : List ℕ) (primary : RuntimePortBindingRecord)
    (status : RuntimeStatus × StatusReason) (active : Option ℕ) (r : RuntimeEntity)
    → length leased ≡ length spec.ports
    → requires_recreate
        (finished_row name spec (assign_leased leased spec.ports) primary status active r)
        spec
        name
      ≡ false
unfolding requires_recreate finished_row with_spec port_bindings_equal mount_records_equal
requires_recreate-finished_row name spec leased primary status active r h =
    rw
      (
        with_host_ports-assign_leased
            (finished_row name spec (assign_leased leased spec.ports) primary status active r)
            leased spec.ports h,
        option_text_eq_refl name,
        text_eq_refl spec.image,
        list_eq_refl text_eq text_eq_refl (or_else spec.command []),
        list_eq_refl pair_eq pair_eq_refl spec.env,
        list_eq_refl json_secret_eq json_secret_eq_refl spec.secrets,
        option_text_eq_refl spec.working_dir,
        list_eq_refl json_binding_eq json_binding_eq_refl (assign_leased leased spec.ports),
        list_eq_refl json_mount_eq json_mount_eq_refl spec.mounts,
        bool_eq_refl spec.is_public,
        nat_eq_refl spec.resources.cpu,
        nat_eq_refl spec.resources.memory_mib,
        nat_eq_refl spec.resources.disk_gib,
        option_eq_refl ◌==◌ nat_eq_refl spec.auto_stop_minutes,
        bool_eq_refl spec.ephemeral,
      )
      refl

-- A binding with a name that is written last: the one that `buildSpec` adds for SSH.
abbrev pub is_appended : RuntimePortBindingRecord → Bool
is_appended b = b.name_last && elim b.name [ none ↦ false | some n ↦ true ]

-- Its JSON text is not that of a binding whose name comes first.
pub json_binding_eq-appended :
    (b c : RuntimePortBindingRecord)
    → is_appended b ≡ true
    → c.name_last ≡ false
    → json_binding_eq b c ≡ false
unfolding json_binding_eq json_binding list_eq
json_binding_eq-appended b c h k = elim (Option-cases b.name) [
  | inl e ↦ absurd (let z : (b.name_last && false) ≡ true = rw e at h in ground (arith, z))
  | inr (n, e) ↦
      let last : b.name_last ≡ true =
        (let z : (b.name_last && true) ≡ true = rw e at h in ground arith) in
      elim (Option-cases c.name) [
        | inl f ↦ rw (last, e, k, f) (ground arith)
        | inr (m, f) ↦ rw (last, e, k, f) refl
      ]
]
