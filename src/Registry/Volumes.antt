-- ===== src/Registry/Volumes.antt =====
-- The volumes, the lists and the host of the registry.
use mathlib.Core.List.{reverse}
use microsanbox_cloud.Prelude.{
  ℕ, true, not, ◌||◌, List, [], ◌∷◌, Option, none, some, Text, text_eq, if◌then◌else◌, find?, keep,
  any,
}
use microsanbox_cloud.Effects.{ok, err, ◌>>=◌, constraint}
use microsanbox_cloud.Database.{Db, RuntimeEntity, VolumeEntity, RuntimeHostEntity}
use microsanbox_cloud.Config.{AppConfig}
use microsanbox_cloud.Registry.{Reg, normalize_name, local_host_id}

unfoldable pub find_volume : Text → Option Text → Reg (Option VolumeEntity)
find_volume value none db = (ok none, db)
find_volume value (some name) db =
    (ok (find? (λ v. text_eq v.id value || text_eq v.name name) db.volumes), db)

unfoldable pub find_volume_by_id_or_name : Text → Reg (Option VolumeEntity)
unfolding find_volume
find_volume_by_id_or_name value = do name ← normalize_name (some value); find_volume value name

-- A new row; the columns `name` and `backendName` are unique.
unfoldable pub save_volume : VolumeEntity → Reg VolumeEntity
save_volume v db =
    if any (λ o. text_eq v.name o.name || text_eq v.backend_name o.backend_name) db.volumes
    then (err constraint, db)
    else (ok v, record db { volumes = v ∷ db.volumes })

-- `find({ order: { createdAt: 'DESC' } })`: a new volume stands first in its table.
unfoldable pub list_volumes : Db → List VolumeEntity
list_volumes db = db.volumes

-- A new runtime stands last.
unfoldable pub list_runtimes : Db → List RuntimeEntity
list_runtimes db = reverse db.runtimes

unfoldable pub delete_volume : VolumeEntity → Db → Db
delete_volume v db = record db { volumes = keep (λ o. not (text_eq o.id v.id)) db.volumes }

put_host : RuntimeHostEntity → List RuntimeHostEntity → List RuntimeHostEntity
put_host h [] = h ∷ []
put_host h (o ∷ hosts) = if text_eq o.id h.id then h ∷ hosts else o ∷ put_host h hosts

-- The row of the local host is written anew on every start.
unfoldable pub ensure_local_host : AppConfig → ℕ → Db → Db
unfolding put_host
ensure_local_host config now db = record db {
  hosts =
      put_host
        (record {
          id = local_host_id;
          name = config.runtime_host_name;
          base_url = config.runtime_host_base_url;
          public_base_url = config.runtime_host_public_base_url;
          enabled = true;
          last_seen_at = some now;
        })
        db.hosts;
}
