-- ===== src/Control/Json.antt =====
-- Equality of `JSON.stringify` texts. Two values have the same text exactly when they have the
-- same properties in the same order; an absent property is not written.
use microsanbox_cloud.Prelude.{
  ℕ, Bool, true, false, ◌&&◌, List, [], ◌∷◌, ◌++◌, Option, none, some, Text, text_eq, ◌==◌,
  if◌then◌else◌,
}
use microsanbox_cloud.Database.{
  Protocol, tcp, udp, RuntimeSecretRecord, RuntimePortBindingRecord, RuntimeVolumeMountRecord,
}

unfoldable pub list_eq {ℓ} : {A : Type ℓ} → (A → A → Bool) → List A → List A → Bool
list_eq eq [] [] = true
list_eq eq (a ∷ xs) (b ∷ ys) = eq a b && list_eq eq xs ys
list_eq eq _ _ = false

unfoldable pub option_eq {ℓ} : {A : Type ℓ} → (A → A → Bool) → Option A → Option A → Bool
option_eq eq none none = true
option_eq eq (some a) (some b) = eq a b
option_eq eq _ _ = false

abbrev pub bool_eq : Bool → Bool → Bool
bool_eq true b = b
bool_eq false true = false
bool_eq false false = true

abbrev pub protocol_eq : Protocol → Protocol → Bool
protocol_eq tcp tcp = true
protocol_eq udp udp = true
protocol_eq _ _ = false

abbrev pub pair_eq : Text × Text → Text × Text → Bool
pair_eq (k, v) (l, w) = text_eq k l && text_eq v w

-- A property of the JSON object of a port binding.
pub data Property : Type 0 where
  named : Text → Property
  containing hosting : ℕ → Property
  speaking : Protocol → Property

abbrev pub property_eq : Property → Property → Bool
property_eq (named a) (named b) = text_eq a b
property_eq (containing a) (containing b) = a == b
property_eq (hosting a) (hosting b) = a == b
property_eq (speaking a) (speaking b) = protocol_eq a b
property_eq _ _ = false

abbrev pub name_property : Option Text → List Property
name_property none = []
name_property (some name) = named name ∷ []

-- The properties in the order in which the code writes them into the object.
unfoldable pub json_binding : RuntimePortBindingRecord → List Property
json_binding b =
    let others = containing b.container_port ∷ hosting b.host_port ∷ speaking b.protocol ∷ [] in
    if b.name_last then others ++ name_property b.name else name_property b.name ++ others

unfoldable pub json_binding_eq : RuntimePortBindingRecord → RuntimePortBindingRecord → Bool
unfolding list_eq json_binding
json_binding_eq a b = list_eq property_eq (json_binding a) (json_binding b)

unfoldable pub json_secret_eq : RuntimeSecretRecord → RuntimeSecretRecord → Bool
unfolding list_eq option_eq
json_secret_eq a b =
    text_eq a.env b.env
    && text_eq a.value b.value
    && option_eq text_eq a.placeholder b.placeholder
    && list_eq text_eq a.allowed_hosts b.allowed_hosts
    && list_eq text_eq a.allowed_host_patterns b.allowed_host_patterns
    && option_eq bool_eq a.allow_any_host_dangerous b.allow_any_host_dangerous
    && option_eq bool_eq a.require_tls_identity b.require_tls_identity
    && option_eq bool_eq a.inject_headers b.inject_headers
    && option_eq bool_eq a.inject_basic_auth b.inject_basic_auth
    && option_eq bool_eq a.inject_query b.inject_query
    && option_eq bool_eq a.inject_body b.inject_body

unfoldable pub json_mount_eq : RuntimeVolumeMountRecord → RuntimeVolumeMountRecord → Bool
json_mount_eq a b =
    text_eq a.volume_id b.volume_id
    && text_eq a.volume_name b.volume_name
    && text_eq a.mount_path b.mount_path
    && bool_eq a.read_only b.read_only

unfoldable pub port_bindings_equal :
    List RuntimePortBindingRecord → List RuntimePortBindingRecord → Bool
unfolding list_eq json_binding_eq
port_bindings_equal current next = list_eq json_binding_eq current next

unfoldable pub mount_records_equal :
    List RuntimeVolumeMountRecord → List RuntimeVolumeMountRecord → Bool
unfolding list_eq json_mount_eq
mount_records_equal current next = list_eq json_mount_eq current next
