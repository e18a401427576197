-- ===== src/Control/Health.antt =====
-- `waitForHealthy` and the errors that `provision` passes over.
use microsanbox_cloud.Prelude.{
  ℕ, zero, suc, ◌+◌, Bool, true, false, ◌||◌, codes, ltb, if◌then◌else◌,
}
use microsanbox_cloud.Text.{includes}
use microsanbox_cloud.Effects.{when◌then◌else◌, Error, pure, ◌>>=◌, ◌>>◌, backend}
use microsanbox_cloud.Config.{AppConfig}
use microsanbox_cloud.Control.Types.{Backend}
use microsanbox_cloud.Control.Monad.{M, on_world, get_value, modify_world}

-- The message of an error of the backend; the errors of the services themselves have neither text.
unfoldable pub is_transient_detached_setup_error : Error → Bool
unfolding includes
is_transient_detached_setup_error (backend message) =
    includes (codes "exec session ended without exit event") message
    || includes (codes "sandbox exec timed out") message
is_transient_detached_setup_error _ = false

module _ {W : Type 0} (config : AppConfig) (b : Backend W) where
  -- The rounds of the `do … while` loop. The first argument bounds their number.
  unfoldable pub wait_rounds : ℕ → ℕ → ℕ → M W Bool
  wait_rounds zero deadline port = pure false
  wait_rounds (suc rounds) deadline port = do
    healthy ← on_world (b.is_healthy port)
    (when healthy then pure true else (do
      modify_world (b.sleep config.runtime_ready_poll_interval_ms)
      time ← get_value b.now
      (when ltb time deadline then wait_rounds rounds deadline port else pure false)))

  unfoldable pub wait_for_healthy : ℕ → M W Bool
  unfolding wait_rounds
  wait_for_healthy port = do
    time ← get_value b.now
    wait_rounds (suc config.runtime_ready_timeout_ms) (time + config.runtime_ready_timeout_ms) port
