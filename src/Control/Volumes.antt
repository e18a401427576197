-- ===== src/Control/Volumes.antt =====
-- The operations on volumes.
use microsanbox_cloud.Prelude.{ℕ, Option, none, some, Text}
use microsanbox_cloud.Effects.{
  pure, throw, ◌>>=◌, ◌>>◌, catch, or_throw, volume_name_required, volume_name_exists,
}
use microsanbox_cloud.Database.{VolumeEntity}
use microsanbox_cloud.Config.{AppConfig}
use microsanbox_cloud.Registry.{normalize_name, normalized, volume_backend_name}
use microsanbox_cloud.Registry.Volumes.{find_volume_by_id_or_name, save_volume, delete_volume}
use microsanbox_cloud.Control.Types.{Backend}
use microsanbox_cloud.Control.Monad.{M, on_db, on_world, get_value, modify_db}
use microsanbox_cloud.Control.Spec.{require_volume}

module _ {W : Type 0} (b : Backend W) where
  -- `Volume name already exists`
  unfoldable pub refuse_volume : Text → Option VolumeEntity → M W (Unit {0})
  refuse_volume name none = pure tt
  refuse_volume name (some _) = throw (volume_name_exists name)

  -- The backend makes the volume after the row; if it fails, the row is taken back.
  unfoldable pub create_volume : AppConfig → Text → Option ℕ → M W VolumeEntity
  unfolding refuse_volume
  create_volume config raw quota_mib = do
    given ← normalize_name (some raw)
    name ← or_throw given volume_name_required
    existing ← on_db (find_volume_by_id_or_name name)
    refuse_volume name existing
    seed ← normalized name
    backend_name ← on_db (volume_backend_name config seed)
    id ← get_value b.new_id
    volume ← on_db (
        save_volume
          (record { id = id; name = name; backend_name = backend_name; quota_mib = quota_mib }))
    (catch (on_world (b.ensure_volume volume.backend_name volume.quota_mib))
        λ e. modify_db (delete_volume volume) >> throw e)
    pure volume

  unfoldable pub remove_volume : Text → M W Text
  unfolding require_volume
  remove_volume value = do
    volume ← on_db (require_volume value)
    on_world (b.remove_volume volume.backend_name)
    modify_db (delete_volume volume)
    pure volume.id
