-- ===== src/Adapter/Stopping.antt =====
-- `stop` and `remove`, and the wait for a sandbox to stop.
use microsanbox_cloud.Prelude.{
  ℕ, zero, suc, ◌+◌, Bool, true, ◌||◌, [], ◌∷◌, Option, none, some, Text, codes, text_eq, leb, ltb,
  is_empty,
}
use microsanbox_cloud.Effects.{Eff, pure, ◌>>=◌, ◌>>◌, catch, when◌then◌else◌}
use microsanbox_cloud.Config.{AppConfig}
use microsanbox_cloud.Adapter.Cli.{run_microsandbox_cli}
use microsanbox_cloud.Adapter.Library.{Library, best_effort}
use microsanbox_cloud.Adapter.Sandboxes.{get_status, get_sandbox_handle}

-- `!status || status === 'stopped'`
unfoldable pub is_stopped : Option Text → Bool
is_stopped none = true
is_stopped (some status) = is_empty status || text_eq status (codes "stopped")

module _ {W H B : Type 0} (config : AppConfig) (lib : Library W H B) where
  unfoldable pub kill_found : Option H → Eff W (Unit {0})
  unfolding best_effort
  kill_found none = pure tt
  kill_found (some handle) = best_effort (lib.kill handle)

  -- The rounds of the `do … while` loop. The first argument bounds their number.
  unfoldable pub stop_rounds : ℕ → ℕ → Text → Eff W (Unit {0})
  unfolding get_status is_stopped kill_found get_sandbox_handle
  stop_rounds zero deadline name = pure tt
  stop_rounds (suc rounds) deadline name = do
    status ← get_status lib name
    (when is_stopped status then pure tt else λ w.
        (when leb deadline (lib.clock w)
            then (get_sandbox_handle lib name >>= kill_found)
            else λ w'.
                (when ltb (lib.clock (lib.delay config.runtime_ready_poll_interval_ms w')) deadline
                    then stop_rounds rounds deadline name
                    else pure tt)
                  (lib.delay config.runtime_ready_poll_interval_ms w'))
          w)

  unfoldable pub wait_for_sandbox_stop : Text → Eff W (Unit {0})
  unfolding stop_rounds
  wait_for_sandbox_stop name w =
      stop_rounds (suc config.runtime_ready_timeout_ms)
        (lib.clock w + config.runtime_ready_timeout_ms) name w

  unfoldable pub stop : Text → Eff W (Unit {0})
  unfolding wait_for_sandbox_stop
  stop name = do handle ← lib.get_sandbox name; lib.stop handle; wait_for_sandbox_stop name

  -- A sandbox that the library does not remove is removed by the command line tool.
  unfoldable pub remove_found : Text → Option H → Eff W (Unit {0})
  unfolding wait_for_sandbox_stop best_effort run_microsandbox_cli
  remove_found name none = pure tt
  remove_found name (some handle) = do
    best_effort (lib.stop handle)
    wait_for_sandbox_stop name
    catch (lib.remove handle)
        λ e. run_microsandbox_cli lib (codes "remove" ∷ codes "--force" ∷ name ∷ []) none

  unfoldable pub remove : Text → Eff W (Unit {0})
  unfolding remove_found get_sandbox_handle
  remove name = get_sandbox_handle lib name >>= remove_found name
