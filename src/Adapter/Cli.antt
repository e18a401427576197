-- ===== src/Adapter/Cli.antt =====
-- `runMicrosandboxCli`: what becomes of the process that it starts.
use microsanbox_cloud.Prelude.{
  ℕ, Bool, false, List, ◌++◌, Option, none, some, Text, codes, ◌==◌, is_empty, if◌then◌else◌,
}
use microsanbox_cloud.Text.{trim, join}
use microsanbox_cloud.Effects.{Outcome, ok, err, Eff, backend}
use microsanbox_cloud.Adapter.Library.{Library, Spawned, not_found, failed, closed}

-- `code === 0`; a process that a signal ended has no code.
unfoldable pub is_success : Option ℕ → Bool
is_success none = false
is_success (some code) = code == 0

-- The listeners of `error` and `close`: the first event settles the promise.
unfoldable pub cli_outcome : List Text → Spawned → Outcome (Unit {0})
unfolding is_success
cli_outcome args not_found = err (
    backend (
      codes
        "Microsandbox CLI is not installed on this host. Install the microsandbox package so image warming can run."))
cli_outcome args (failed message) = err (backend message)
cli_outcome args (closed code stderr) =
    if is_success code
    then ok tt
    else err (
        backend (
          codes "Microsandbox CLI command failed: "
          ++ (if is_empty (trim stderr) then join (codes " ") args else trim stderr)))

module _ {W H B : Type 0} (lib : Library W H B) where
  unfoldable pub run_microsandbox_cli : List Text → Option Text → Eff W (Unit {0})
  unfolding cli_outcome
  run_microsandbox_cli args stdin w =
      (cli_outcome args (lib.spawn args stdin w).0, (lib.spawn args stdin w).1)
