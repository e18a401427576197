-- ===== src/Control/Kept.antt =====
-- The operations on sandboxes lease no port twice.
use microsanbox_cloud.Prelude.{ℕ, Text, List, Option, none, some}
use microsanbox_cloud.Effects.{pure, throw, sandbox_name_exists}
use microsanbox_cloud.Effects.Keeps.{Keeps, Keeps-choice, Keeps-after, Keeps-or_throw, Keeps-guard}
use microsanbox_cloud.Database.{RuntimeEntity, RuntimeStatus, StatusReason}
use microsanbox_cloud.Config.{AppConfig}
use microsanbox_cloud.Registry.{
  find_runtime_by_sandbox_id_or_name, set_runtime_status, create_sandbox_id,
}
use microsanbox_cloud.Registry.Exclusive.{release-Exclusive}
use microsanbox_cloud.Control.Types.{Backend, EnsureRuntimeDto, RuntimeFileDto}
use microsanbox_cloud.Control.Monad.{M, on_db}
use microsanbox_cloud.Control.Provisioned.{provision-Keeps, normalize_name-Keeps}
use microsanbox_cloud.Control.Exclusive.{
  DbSafe, Safe, IsKept, find-Keeps, normalized-Keeps, update_runtime-Keeps,
}
use microsanbox_cloud.Control.Lifecycle.{
  require_runtime, sync_status, require_running_runtime, get, start, stop, delete, touch, exec,
  refresh_activity, write_files, download_files, refuse_taken, create, ensure, update,
}

module _ {W : Type 0} (config : AppConfig) (b : Backend W) (Q : W → Type 0)
    (kept : IsKept b Q) where
  pub require-Keeps : (v : Text) → Keeps (Safe Q) (require_runtime v)
  unfolding require_runtime find_runtime_by_sandbox_id_or_name
  require-Keeps v s p =
      Keeps-after (Safe Q) _ _
        (Keeps-after DbSafe _ _ (normalized-Keeps DbSafe v s.db p.0) (λ key db p. p), p.1)
        λ found s p. Keeps-or_throw (Safe Q) _ _ s p

  pub sync-Keeps : (r : RuntimeEntity) → Keeps (Safe Q) (sync_status b r)
  unfolding sync_status
  sync-Keeps r s p =
      Keeps-after (Safe Q) _ _ (p.0, kept.get_status _ s.world p.1)
        λ status s p. Keeps-choice (Safe Q) _ _ _ s p (update_runtime-Keeps r _ s.db p.0, p.1)

  pub running-Keeps : (v : Text) → Keeps (Safe Q) (require_running_runtime b v)
  unfolding require_running_runtime
  running-Keeps v s p = Keeps-after (Safe Q) _ _ (require-Keeps v s p) λ found s p.
      Keeps-after (Safe Q) _ _ (sync-Keeps found s p)
        λ runtime s p. Keeps-after (Safe Q) _ _ (Keeps-guard (Safe Q) _ _ s p) λ _ s p. p

  pub touch-Keeps : (r : RuntimeEntity) → Keeps (Safe Q) (touch b r)
  unfolding touch
  touch-Keeps r s p =
      Keeps-after (Safe Q) _ _ (p.0, kept.now s.world p.1)
        λ time s p. (update_runtime-Keeps r _ s.db p.0, p.1)

  pub status-Keeps :
      (time : ℕ) (r : RuntimeEntity) (status : RuntimeStatus) (reason : Option StatusReason)
      → Keeps (Safe Q) (on_db (set_runtime_status time r status reason))
  unfolding set_runtime_status
  status-Keeps time r status reason s p = (update_runtime-Keeps r _ s.db p.0, p.1)

  pub id-Keeps :
      (draw : M W Text)
      → Keeps (Safe Q) draw
      → (seed : Option Text) → Keeps (Safe Q) (create_sandbox_id draw seed)
  unfolding create_sandbox_id
  id-Keeps draw k none s p =
      Keeps-after (Safe Q) _ _ (k s p) λ drawn s p. normalized-Keeps (Safe Q) drawn s p
  id-Keeps draw k (some seed) s p =
      Keeps-choice (Safe Q) _ _ _ s
        (Keeps-after (Safe Q) _ _ (k s p) λ drawn s p. normalized-Keeps (Safe Q) drawn s p)
        (normalized-Keeps (Safe Q) seed s p)

  pub refuse_taken-Keeps : (name : Option Text) → Keeps (Safe Q) (refuse_taken b config name)
  unfolding refuse_taken find_runtime_by_sandbox_id_or_name
  refuse_taken-Keeps none s p = p
  refuse_taken-Keeps (some name) s p =
      Keeps-after (Safe Q) _ _
        (Keeps-after DbSafe _ _ (normalized-Keeps DbSafe name s.db p.0) (λ key db p. p), p.1)
        λ found s p. refused found s p
    where
      refused :
          (found : Option RuntimeEntity)
          → Keeps
              (Safe Q)
              (elim found [ none ↦ pure tt | some _ ↦ throw (sandbox_name_exists name) ])
      refused none s p = p
      refused (some r) s p = p

  pub create-Keeps : (input : EnsureRuntimeDto) → Keeps (Safe Q) (create b config input)
  unfolding create
  create-Keeps input s p =
      Keeps-after (Safe Q) _ _ (normalize_name-Keeps config b Q kept (Safe Q) input.name s p)
        λ name s p. Keeps-after (Safe Q) _ _ (refuse_taken-Keeps name s p) λ _ s p.
          Keeps-after (Safe Q) _ _ (id-Keeps _ (λ s p. (p.0, kept.draw 8 s.world p.1)) name s p)
            λ id s p. provision-Keeps config b Q kept _ id s p

  pub ensure-Keeps : (input : EnsureRuntimeDto) → Keeps (Safe Q) (ensure b config input)
  unfolding ensure
  ensure-Keeps input s p =
      Keeps-after (Safe Q) _ _ (id-Keeps _ (λ s p. (p.0, kept.draw 8 s.world p.1)) _ s p)
        λ id s p. provision-Keeps config b Q kept _ id s p

  pub update-Keeps :
      (id : Text) (input : EnsureRuntimeDto) → Keeps (Safe Q) (update b config id input)
  unfolding update
  update-Keeps id input s p =
      Keeps-after (Safe Q) _ _ (find-Keeps id s.db p.0, p.1)
        λ found s p.
          Keeps-after (Safe Q) _ _ (Keeps-or_throw (Safe Q) found _ s p)
            λ r s p. provision-Keeps config b Q kept _ r.sandbox_id s p

  pub start-Keeps : (v : Text) → Keeps (Safe Q) (start b v)
  unfolding start
  start-Keeps v s p = Keeps-after (Safe Q) _ _ (require-Keeps v s p) λ r s p.
      Keeps-after (Safe Q) _ _ (p.0, kept.start _ _ _ s.world p.1)
        λ _ s p.
          Keeps-after (Safe Q) _ _ (p.0, kept.now s.world p.1)
            λ time s p. status-Keeps time r _ _ s p

  pub stop-Keeps : (v : Text) → Keeps (Safe Q) (stop b v)
  unfolding stop
  stop-Keeps v s p = Keeps-after (Safe Q) _ _ (require-Keeps v s p) λ r s p.
      Keeps-after (Safe Q) _ _ (p.0, kept.stop _ s.world p.1) λ _ s p. status-Keeps 0 r _ _ s p

  pub delete-Keeps : (v : Text) → Keeps (Safe Q) (delete b v)
  unfolding delete
  delete-Keeps v s p = Keeps-after (Safe Q) _ _ (require-Keeps v s p) λ r s p.
      Keeps-after (Safe Q) _ _ (status-Keeps 0 r _ _ s p) λ _ s p.
        Keeps-after (Safe Q) _ _ (p.0, kept.remove _ s.world p.1)
          λ _ s p.
            Keeps-after (Safe Q) _ _ ((release-Exclusive r r.id s.db p.0).0, p.1)
              λ _ s p.
                Keeps-after (Safe Q) _ _ ((release-Exclusive r r.id s.db p.0).1, p.1) λ _ s p. p

  pub get-Keeps : (v : Text) → Keeps (Safe Q) (get b v)
  unfolding get
  get-Keeps v s p = Keeps-after (Safe Q) _ _ (require-Keeps v s p) λ r s p. sync-Keeps r s p

  pub exec-Keeps : (v command : Text) (args : List Text) → Keeps (Safe Q) (exec b v command args)
  unfolding exec
  exec-Keeps v command args s p = Keeps-after (Safe Q) _ _ (running-Keeps v s p) λ r s p.
      Keeps-after (Safe Q) _ _ (p.0, kept.exec _ _ _ s.world p.1)
        λ result s p. Keeps-after (Safe Q) _ _ (touch-Keeps r s p) λ updated s p. p

  pub refresh-Keeps : (v : Text) → Keeps (Safe Q) (refresh_activity b v)
  unfolding refresh_activity
  refresh-Keeps v s p = Keeps-after (Safe Q) _ _ (running-Keeps v s p) λ r s p.
      Keeps-after (Safe Q) _ _ (p.0, kept.refresh_activity _ s.world p.1)
        λ result s p. touch-Keeps r s p

  pub write-Keeps :
      (v : Text) (files : List RuntimeFileDto) → Keeps (Safe Q) (write_files b v files)
  unfolding write_files
  write-Keeps v files s p = Keeps-after (Safe Q) _ _ (running-Keeps v s p) λ r s p.
      Keeps-after (Safe Q) _ _ (p.0, kept.write_files _ _ s.world p.1)
        λ result s p. touch-Keeps r s p

  pub download-Keeps : (v : Text) (paths : List Text) → Keeps (Safe Q) (download_files b v paths)
  unfolding download_files
  download-Keeps v paths s p = Keeps-after (Safe Q) _ _ (running-Keeps v s p) λ r s p.
      Keeps-after (Safe Q) _ _ (p.0, kept.read_files _ _ s.world p.1)
        λ files s p. Keeps-after (Safe Q) _ _ (touch-Keeps r s p) λ updated s p. p
