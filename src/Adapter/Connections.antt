-- ===== src/Adapter/Connections.antt =====
-- The uses of a sandbox by the adapter: how each changes the number of those that it has connected
-- to, started or created, and not yet called `detach` on.
use microsanbox_cloud.Prelude.{ℕ, sym, subst, false, List, [], ◌∷◌, Option, Text, codes, text_eq}
use microsanbox_cloud.Effects.{Eff}
use microsanbox_cloud.Effects.Keeps.{Keeps-bind, Keeps-guard}
use microsanbox_cloud.Control.Types.{RuntimeFileDto, CreateRuntimeInput}
use microsanbox_cloud.Paths.{parent_directories}
use microsanbox_cloud.Adapter.Library.{Library, best_effort}
use microsanbox_cloud.Adapter.Sandboxes.{
  open_sandbox, with_sandbox, exec_in, exec, refresh_activity, make_directories,
  write_files_to_sandbox, write_files, read_from_sandbox, read_files,
}
use microsanbox_cloud.Adapter.Launch.{
  detach_best_effort, create_detached_runtime, start, sandbox_config,
}
use microsanbox_cloud.Adapter.Counting.{
  Opens, Closes, KeepsCount, IsTracked, closed, Opens-after, Opens-choice, KeepsCount-best_effort,
  KeepsCount-pure, KeepsCount-bind,
}
use microsanbox_cloud.Adapter.Commands.{
  with_timeout-state, launch_managed_command-KeepsCount, set_up_ssh-KeepsCount,
}

module _ {W H B : Type 0} (lib : Library W H B) (Open : ℕ → W → Type 0)
    (counted : IsTracked lib Open) where
  open_sandbox-Opens : (name : Text) → Opens Open (open_sandbox lib name)
  unfolding open_sandbox KeepsCount Opens
  open_sandbox-Opens name n w p =
      Opens-after Open n (lib.get_sandbox name w) _ (counted.get_sandbox name n w p) λ h.
        Opens-choice Open (text_eq (lib.status h) (codes "running")) _ _ (counted.connect h)
          (counted.start_detached h)

  with_sandbox-KeepsCount :
      {A : Type 0} (name : Text) (use_it : B → Eff W A)
      → ((b : B) → KeepsCount Open (use_it b))
      → KeepsCount Open (with_sandbox lib name use_it)
  unfolding with_sandbox KeepsCount Opens
  with_sandbox-KeepsCount name use_it k n w p =
      closed Open n (open_sandbox lib name w) use_it lib.detach (open_sandbox-Opens name n w p) k
        counted.detach

  exec_in-KeepsCount :
      (command : Text) (args : List Text) (b : B) → KeepsCount Open (exec_in lib command args b)
  unfolding exec_in
  exec_in-KeepsCount command args b =
      KeepsCount-bind Open _ _ (counted.exec b command args) (λ output. KeepsCount-pure Open _)

  make_directories-KeepsCount :
      (b : B) (dirs : List Text) → KeepsCount Open (make_directories lib b dirs)
  unfolding make_directories
  make_directories-KeepsCount b [] = KeepsCount-pure Open _
  make_directories-KeepsCount b (dir ∷ dirs) =
      KeepsCount-bind Open _ _ (KeepsCount-best_effort Open _ (counted.mkdir b dir))
        (λ u. make_directories-KeepsCount b dirs)

  write_files_to_sandbox-KeepsCount :
      (files : List RuntimeFileDto) (b : B) → KeepsCount Open (write_files_to_sandbox lib files b)
  unfolding write_files_to_sandbox
  write_files_to_sandbox-KeepsCount [] b = KeepsCount-pure Open _
  write_files_to_sandbox-KeepsCount (file ∷ files) b =
      KeepsCount-bind Open _ _ (make_directories-KeepsCount b (parent_directories file.path)) (λ u.
        KeepsCount-bind Open _ _ (counted.write b file.path file.content)
          (λ v. write_files_to_sandbox-KeepsCount files b))

  read_from_sandbox-KeepsCount :
      (paths : List Text) (b : B) → KeepsCount Open (read_from_sandbox lib paths b)
  unfolding read_from_sandbox
  read_from_sandbox-KeepsCount [] b = KeepsCount-pure Open _
  read_from_sandbox-KeepsCount (path ∷ paths) b =
      KeepsCount-bind Open _ _ (counted.read b path) (λ content.
        KeepsCount-bind Open _ _ (read_from_sandbox-KeepsCount paths b)
          (λ rest. KeepsCount-pure Open _))

  detach_best_effort-Closes : (b : B) → Closes Open (detach_best_effort lib b)
  unfolding detach_best_effort best_effort Closes
  detach_best_effort-Closes b n w p =
      subst (Open n) (sym (with_timeout-state lib Open counted (lib.detach b) 2000 _ w))
        (counted.detach b n w p)

  pub exec-KeepsCount :
      (name command : Text) (args : List Text) → KeepsCount Open (exec lib name command args)
  unfolding exec
  exec-KeepsCount name command args =
      with_sandbox-KeepsCount name _ (exec_in-KeepsCount command args)

  pub refresh_activity-KeepsCount : (name : Text) → KeepsCount Open (refresh_activity lib name)
  unfolding refresh_activity KeepsCount Opens
  refresh_activity-KeepsCount name n =
      Keeps-bind (Open n) (lib.get_sandbox name) _ (counted.get_sandbox name n) λ h.
        Keeps-bind _ _ _ (Keeps-guard _ (text_eq (lib.status h) (codes "running")) _) λ u v k.
          closed Open n (lib.connect h v) _ lib.detach (counted.connect h n v k)
            (λ b. counted.shell b (codes ":")) counted.detach

  pub start-KeepsCount :
      (name : Text) (command : Option (List Text)) (dir : Option Text)
      → KeepsCount Open (start lib name command dir)
  unfolding start KeepsCount Opens
  start-KeepsCount name command dir n =
      Keeps-bind (Open n) (lib.get_sandbox name) _ (counted.get_sandbox name n) λ h v k.
        closed Open n (lib.start_detached h v) _ lib.detach (counted.start_detached h n v k)
          (λ b. launch_managed_command-KeepsCount lib Open counted b command dir false)
          counted.detach

  pub create_detached_runtime-KeepsCount :
      (input : CreateRuntimeInput) → KeepsCount Open (create_detached_runtime lib input)
  unfolding create_detached_runtime KeepsCount Opens
  create_detached_runtime-KeepsCount input n w p =
      closed Open n (lib.create (sandbox_config input) w) _ (detach_best_effort lib)
        (counted.create (sandbox_config input) n w p)
        (λ b. KeepsCount-bind Open _ _ (set_up_ssh-KeepsCount lib Open counted b input.ssh) (λ u.
          launch_managed_command-KeepsCount lib Open counted b input.command input.working_dir
            input.ssh))
        detach_best_effort-Closes

  pub write_files-KeepsCount :
      (name : Text) (files : List RuntimeFileDto) → KeepsCount Open (write_files lib name files)
  unfolding write_files
  write_files-KeepsCount name [] = KeepsCount-pure Open tt
  write_files-KeepsCount name (file ∷ files) =
      with_sandbox-KeepsCount name _ (write_files_to_sandbox-KeepsCount (file ∷ files))

  pub read_files-KeepsCount :
      (name : Text) (paths : List Text) → KeepsCount Open (read_files lib name paths)
  unfolding read_files
  read_files-KeepsCount name [] = KeepsCount-pure Open _
  read_files-KeepsCount name (path ∷ paths) =
      with_sandbox-KeepsCount name _ (read_from_sandbox-KeepsCount (path ∷ paths))
