-- ===== src/Control/Listing.antt =====
-- The lists of the control service, and its operations on images.
use microsanbox_cloud.Prelude.{Bool, List, Option, Text, truthy}
use microsanbox_cloud.Text.{trim}
use microsanbox_cloud.Effects.{ok, ◌>>◌, guard, image_required}
use microsanbox_cloud.Database.{RuntimeEntity, VolumeEntity}
use microsanbox_cloud.Registry.Volumes.{list_volumes, list_runtimes}
use microsanbox_cloud.Control.Types.{Backend, ImageInfo, RuntimeRegistryAuthDto}
use microsanbox_cloud.Control.Monad.{M, on_db, on_world}
use microsanbox_cloud.Control.Spec.{require_volume}

-- The rows whose summaries are answered.
unfoldable pub list_sandboxes : {W : Type 0} → M W (List RuntimeEntity)
unfolding list_runtimes
list_sandboxes s = (ok (list_runtimes s.db), s)

unfoldable pub list_volume_rows : {W : Type 0} → M W (List VolumeEntity)
unfolding list_volumes
list_volume_rows s = (ok (list_volumes s.db), s)

unfoldable pub get_volume : {W : Type 0} → Text → M W VolumeEntity
unfolding require_volume
get_volume value = on_db (require_volume value)

module _ {W : Type 0} (b : Backend W) where
  unfoldable pub list_images : M W (List ImageInfo)
  list_images = on_world b.list_cached_images

  unfoldable pub pull_image : Text → Option RuntimeRegistryAuthDto → M W (ImageInfo × Bool)
  pull_image reference auth = do
    guard (truthy (trim reference)) image_required
    on_world (b.pull_image reference auth)
