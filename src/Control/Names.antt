-- ===== src/Control/Names.antt =====
-- `create` under a name that is taken.
use microsanbox_cloud.Prelude.{◌≡◌, refl, false, some, Text, is_empty}
use microsanbox_cloud.Text.{trim}
use microsanbox_cloud.Identity.{normalize_sandbox_id}
use microsanbox_cloud.Identity.Laws.{normalize_sandbox_id_idem}
use microsanbox_cloud.Effects.{err, after, when◌then◌else◌, sandbox_name_exists}
use microsanbox_cloud.Config.{AppConfig}
use microsanbox_cloud.Database.{RuntimeEntity}
use microsanbox_cloud.Registry.{normalize_name, normalized, find_runtime_by_sandbox_id_or_name}
use microsanbox_cloud.Control.Types.{Service, Backend, EnsureRuntimeDto}
use microsanbox_cloud.Control.Lifecycle.{create, refuse_taken}
use microsanbox_cloud.Control.Lookup.{lookup}

-- A creation under a name whose normal form is the sandbox id or the name of a sandbox is refused,
-- and nothing changes.
pub create-taken :
    {W : Type 0} (b : Backend W) (config : AppConfig) (input : EnsureRuntimeDto) (given key : Text)
    (r : RuntimeEntity) (s : Service W)
    → input.name ≡ some given
    → is_empty (trim given) ≡ false
    → normalize_sandbox_id given ≡ some key
    → lookup given s.db ≡ some r
    → create b config input s ≡ (err (sandbox_name_exists key), s)
unfolding create refuse_taken normalize_name normalized find_runtime_by_sandbox_id_or_name after
    when◌then◌else◌
create-taken b config input given key r s named shown normal taken =
    let found = rw normal at taken in
    rw (named, shown, normal, normalize_sandbox_id_idem given key normal, found) refl
