-- ===== src/Adapter/Sandboxes.antt =====
-- `exec`, `refreshActivity`, `writeFiles`, `readFiles`, `getStatus` and `isHealthy`.
use microsanbox_cloud.Prelude.{
  ℕ, Bool, List, [], ◌∷◌, ◌++◌, Option, none, some, Text, codes, text_eq,
}
use microsanbox_cloud.Effects.{
  Outcome, ok, err, Eff, pure, ◌>>=◌, ◌>>◌, catch, guard, backend, when◌then◌else◌,
}
use microsanbox_cloud.Paths.{parent_directories}
use microsanbox_cloud.Control.Types.{RuntimeFileDto, ExecResult}
use microsanbox_cloud.Control.Spec.{or_else}
use microsanbox_cloud.Control.Build.{positive}
use microsanbox_cloud.Adapter.Library.{Library, finally, best_effort}

module _ {W H B : Type 0} (lib : Library W H B) where
  -- The handle is connected to if its sandbox is running, or else started.
  unfoldable pub open_sandbox : Text → Eff W B
  open_sandbox name = do
    handle ← lib.get_sandbox name
    (when text_eq (lib.status handle) (codes "running")
        then lib.connect handle
        else lib.start_detached handle)

  -- A sandbox for the time of one use.
  unfoldable pub with_sandbox : {A : Type 0} → Text → (B → Eff W A) → Eff W A
  unfolding open_sandbox finally
  with_sandbox name use_it = do
    sandbox ← open_sandbox name
    finally (use_it sandbox) (lib.detach sandbox)

  unfoldable pub exec_in : Text → List Text → B → Eff W ExecResult
  exec_in command args sandbox = do
    output ← lib.exec sandbox command args
    pure (record {
      stdout = output.stdout;
      stderr = output.stderr;
      exit_code = or_else output.code 0;
    })

  unfoldable pub exec : Text → Text → List Text → Eff W ExecResult
  unfolding with_sandbox exec_in
  exec name command args = with_sandbox name (exec_in command args)

  unfoldable pub refresh_activity : Text → Eff W (Unit {0})
  unfolding finally
  refresh_activity name = do
    handle ← lib.get_sandbox name
    guard (text_eq (lib.status handle) (codes "running"))
        (backend (codes "Sandbox is not running: " ++ name))
    sandbox ← lib.connect handle
    finally (lib.shell sandbox (codes ":")) (lib.detach sandbox)

  unfoldable pub make_directories : B → List Text → Eff W (Unit {0})
  unfolding best_effort
  make_directories sandbox [] = pure tt
  make_directories sandbox (dir ∷ dirs) =
      best_effort (lib.mkdir sandbox dir) >> make_directories sandbox dirs

  unfoldable pub write_files_to_sandbox : List RuntimeFileDto → B → Eff W (Unit {0})
  unfolding make_directories
  write_files_to_sandbox [] sandbox = pure tt
  write_files_to_sandbox (file ∷ files) sandbox = do
    make_directories sandbox (parent_directories file.path)
    lib.write sandbox file.path file.content
    write_files_to_sandbox files sandbox

  unfoldable pub write_files : Text → List RuntimeFileDto → Eff W (Unit {0})
  unfolding with_sandbox write_files_to_sandbox
  write_files name [] = pure tt
  write_files name (file ∷ files) = with_sandbox name (write_files_to_sandbox (file ∷ files))

  unfoldable pub read_from_sandbox : List Text → B → Eff W (List RuntimeFileDto)
  read_from_sandbox [] sandbox = pure []
  read_from_sandbox (path ∷ paths) sandbox = do
    content ← lib.read sandbox path
    rest ← read_from_sandbox paths sandbox
    pure (record { path = path; content = content } ∷ rest)

  unfoldable pub read_files : Text → List Text → Eff W (List RuntimeFileDto)
  unfolding with_sandbox read_from_sandbox
  read_files name [] = pure []
  read_files name (path ∷ paths) = with_sandbox name (read_from_sandbox (path ∷ paths))

  -- `null` where the library knows no sandbox of that name.
  unfoldable pub handle_or_none : {A : Type 0} → Outcome A × W → Outcome (Option A) × W
  handle_or_none (ok a, w) = (ok (some a), w)
  handle_or_none (err e, w) = (ok none, w)

  unfoldable pub get_sandbox_handle : Text → Eff W (Option H)
  unfolding handle_or_none
  get_sandbox_handle name w = handle_or_none (lib.get_sandbox name w)

  unfoldable pub get_status : Text → Eff W (Option Text)
  unfolding get_sandbox_handle
  get_status name = do
    handle ← get_sandbox_handle name
    pure (elim handle [ none ↦ none | some h ↦ some (lib.status h) ])

  unfoldable pub is_healthy : ℕ → Eff W Bool
  is_healthy port w = (ok (lib.connects port w).0, (lib.connects port w).1)

  unfoldable pub ensure_volume : Text → Option ℕ → Eff W (Unit {0})
  ensure_volume name quota =
      catch (lib.get_volume name) λ e. lib.create_volume name (positive quota)

  -- A volume that is missing is no error.
  unfoldable pub remove_volume : Text → Eff W (Unit {0})
  unfolding best_effort
  remove_volume name = best_effort (lib.remove_volume name)
