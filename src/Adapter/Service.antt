-- ===== src/Adapter/Service.antt =====
-- The adapter as the backend of the control service.
use microsanbox_cloud.Prelude.{ℕ, Bool, Text}
use microsanbox_cloud.Config.{AppConfig}
use microsanbox_cloud.Control.Types.{Backend}
use microsanbox_cloud.Adapter.Library.{Library}
use microsanbox_cloud.Adapter.Sandboxes.{
  exec, refresh_activity, write_files, read_files, get_status, is_healthy, ensure_volume,
  remove_volume,
}
use microsanbox_cloud.Adapter.Launch.{create_detached_runtime, start}
use microsanbox_cloud.Adapter.Stopping.{stop, remove}
use microsanbox_cloud.Adapter.Images.{list_cached_images, pull_image}

-- Random texts, the ids of the database, and the ports that it refuses to lease.
pub record Platform (W : Type 0) : Type 0 where
  pub draw : ℕ → W → Text × W
  pub new_id : W → Text × W
  pub refuses : W → ℕ → Bool

-- `class MicrosandboxAdapterService implements MicrosandboxAdapter`
unfoldable pub backend_of : {W H B : Type 0} → AppConfig → Library W H B → Platform W → Backend W
backend_of config lib platform = record {
  list_cached_images = list_cached_images lib;
  pull_image = pull_image lib;
  ensure_volume = ensure_volume lib;
  remove_volume = remove_volume lib;
  create_detached_runtime = create_detached_runtime lib;
  start = start lib;
  stop = stop config lib;
  remove = remove config lib;
  exec = exec lib;
  refresh_activity = refresh_activity lib;
  write_files = write_files lib;
  read_files = read_files lib;
  get_status = get_status lib;
  is_healthy = is_healthy lib;
  now = λ w. (lib.clock w, w);
  sleep = lib.delay;
  draw = platform.draw;
  new_id = platform.new_id;
  refuses = platform.refuses;
}
