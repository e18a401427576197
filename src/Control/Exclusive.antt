-- ===== src/Control/Exclusive.antt =====
-- No operation of the control service leaves a port leased twice.
use microsanbox_cloud.Prelude.{
  ℕ, Bool, true, false, inl, inr, Bool-cases, Option, none, some, Text, List, any,
}
use microsanbox_cloud.Effects.{after}
use microsanbox_cloud.Effects.Keeps.{
  Keeps, Keeps-or_throw, Keeps-choice, Keeps-after, Keeps-recover,
}
use microsanbox_cloud.Database.{Db, RuntimeEntity, RuntimePortBindingRecord}
use microsanbox_cloud.Config.{AppConfig}
use microsanbox_cloud.Registry.{
  save_runtime, update_runtime, find_runtime_by_sandbox_id, normalized, sandbox_name, clash,
}
use microsanbox_cloud.Registry.Apart.{Exclusive}
use microsanbox_cloud.Registry.Exclusive.{lease_ports-Exclusive, release-Exclusive}
use microsanbox_cloud.Control.Types.{
  RuntimeRegistryAuthDto, CreateRuntimeInput, RuntimeFileDto, Backend, Service, EnsureRuntimeDto,
  RuntimeSpec,
}
use microsanbox_cloud.Control.Monad.{on_db}
use microsanbox_cloud.Control.Ports.{lease}
use microsanbox_cloud.Control.Provision.{
  active_at, current_healthy, reuse, mark_replacing, lease_or_delete, create_row,
}

abbrev pub DbSafe : Db → Type 0
DbSafe db = Exclusive db.leases

pub save_runtime-Keeps : (r : RuntimeEntity) → Keeps DbSafe (save_runtime r)
unfolding save_runtime
save_runtime-Keeps r db p = elim (Bool-cases (any (clash r) db.runtimes)) [
  | inl e ↦ rw e p
  | inr e ↦ rw e p
]

pub update_runtime-Keeps :
    (r : RuntimeEntity) (f : RuntimeEntity → RuntimeEntity) → Keeps DbSafe (update_runtime r f)
unfolding update_runtime
update_runtime-Keeps r f = save_runtime-Keeps (f r)

pub normalized-Keeps : {S : Type 0} (P : S → Type 0) (v : Text) → Keeps P (normalized v)
unfolding normalized
normalized-Keeps P v = Keeps-or_throw P _ _

pub find-Keeps : (v : Text) → Keeps DbSafe (find_runtime_by_sandbox_id v)
unfolding find_runtime_by_sandbox_id
find-Keeps v db p = Keeps-after DbSafe _ _ (normalized-Keeps DbSafe v db p) (λ key db p. p)

-- What the calls of a backend leave true of the world.
pub record IsKept {W : Type 0} (b : Backend W) (Q : W → Type 0) : Type 0 where
  pub list_cached_images : Keeps Q b.list_cached_images
  pub pull_image :
      (reference : Text) (auth : Option RuntimeRegistryAuthDto)
      → Keeps Q (b.pull_image reference auth)
  pub ensure_volume : (name : Text) (quota : Option ℕ) → Keeps Q (b.ensure_volume name quota)
  pub remove_volume : (name : Text) → Keeps Q (b.remove_volume name)
  pub create_detached_runtime :
      (input : CreateRuntimeInput) → Keeps Q (b.create_detached_runtime input)
  pub start :
      (name : Text) (command : Option (List Text)) (dir : Option Text)
      → Keeps Q (b.start name command dir)
  pub stop : (name : Text) → Keeps Q (b.stop name)
  pub remove : (name : Text) → Keeps Q (b.remove name)
  pub exec : (name command : Text) (args : List Text) → Keeps Q (b.exec name command args)
  pub refresh_activity : (name : Text) → Keeps Q (b.refresh_activity name)
  pub write_files : (name : Text) (files : List RuntimeFileDto) → Keeps Q (b.write_files name files)
  pub read_files : (name : Text) (paths : List Text) → Keeps Q (b.read_files name paths)
  pub get_status : (name : Text) → Keeps Q (b.get_status name)
  pub is_healthy : (port : ℕ) → Keeps Q (b.is_healthy port)
  pub now : (w : W) → Q w → Q (b.now w).1
  pub sleep : (ms : ℕ) (w : W) → Q w → Q (b.sleep ms w)
  pub draw : (size : ℕ) (w : W) → Q w → Q (b.draw size w).1
  pub new_id : (w : W) → Q w → Q (b.new_id w).1

-- No port is leased twice, and the world is as the backend keeps it.
abbrev pub Safe : {W : Type 0} → (W → Type 0) → Service W → Type 0
Safe Q s = Exclusive s.db.leases × Q s.world

module _ {W : Type 0} (config : AppConfig) (b : Backend W) (Q : W → Type 0)
    (kept : IsKept b Q) where
  pub lease-Keeps : (id : Text) (n : ℕ) → Keeps (Safe Q) (lease config b id n)
  unfolding lease
  lease-Keeps id n s p = (lease_ports-Exclusive config (b.refuses s.world) id n s.db p.0, p.1)

  pub active_at-Keeps :
      (o : Option Bool) (r : RuntimeEntity) → Keeps (Safe Q) (active_at config b o r)
  unfolding active_at after
  active_at-Keeps (some false) r s p = p
  active_at-Keeps (some true) r s p = (p.0, kept.now s.world p.1)
  active_at-Keeps none r s p = (p.0, kept.now s.world p.1)

  pub update-Keeps :
      (r : RuntimeEntity) (f : RuntimeEntity → RuntimeEntity)
      → Keeps (Safe Q) (on_db (update_runtime r f))
  update-Keeps r f s p = (update_runtime-Keeps r f s.db p.0, p.1)

  pub current_healthy-Keeps : (r : RuntimeEntity) → Keeps (Safe Q) (current_healthy config b r)
  unfolding current_healthy
  current_healthy-Keeps r s p =
      Keeps-after (Safe Q) _ _ (p.0, kept.get_status _ s.world p.1)
        λ status s p. Keeps-choice (Safe Q) _ _ _ s (p.0, kept.is_healthy _ s.world p.1) p

  pub reuse-Keeps :
      (input : EnsureRuntimeDto) (name : Option Text) (spec : RuntimeSpec) (r : RuntimeEntity)
      → Keeps (Safe Q) (reuse config b input name spec r)
  unfolding reuse
  reuse-Keeps input name spec r s p =
      Keeps-after (Safe Q) _ _
        (Keeps-choice (Safe Q) _ _ _ s p (p.0, kept.write_files _ _ s.world p.1))
        λ _ s p.
          Keeps-after (Safe Q) _ _ (active_at-Keeps input.refresh_activity r s p)
            λ active s p. update-Keeps r _ s p

  pub mark_replacing-Keeps :
      (input : EnsureRuntimeDto) (name : Option Text) (spec : RuntimeSpec) (r : RuntimeEntity)
      → Keeps (Safe Q) (mark_replacing config b input name spec r)
  unfolding mark_replacing
  mark_replacing-Keeps input name spec r s p = update-Keeps r _ s p

  lease_or_delete-Keeps :
      (r : RuntimeEntity) (n : ℕ) → Keeps (Safe Q) (lease_or_delete config b r n)
  unfolding lease_or_delete after
  lease_or_delete-Keeps r n s p =
      Keeps-recover (Safe Q) _ _ (lease-Keeps r.id n s p)
        λ e s p. ((release-Exclusive r r.id s.db p.0).1, p.1)

  pub create_row-Keeps :
      (id : Text) (name : Option Text) (spec : RuntimeSpec) (primary : RuntimePortBindingRecord)
      → Keeps (Safe Q) (create_row config b id name spec primary)
  unfolding create_row sandbox_name
  create_row-Keeps id name spec primary s p =
      Keeps-after (Safe Q) _ _ (p.0, kept.draw 24 s.world p.1)
        λ auth s p.
          Keeps-after (Safe Q) _ _ (Keeps-or_throw DbSafe _ _ s.db p.0, p.1)
            λ backend s p.
              Keeps-after (Safe Q) _ _ (p.0, kept.now s.world p.1)
                λ time s p.
                  Keeps-after (Safe Q) _ _ (p.0, kept.new_id s.world p.1)
                    λ new s p.
                      Keeps-after (Safe Q) _ _ (save_runtime-Keeps _ s.db p.0, p.1)
                        λ runtime s p.
                          Keeps-after (Safe Q) _ _ (lease_or_delete-Keeps runtime _ s p)
                            λ leased s p. p
