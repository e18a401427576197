-- ===== src/Control/Provisioned.antt =====
-- What the provisioning of a runtime keeps: no port is leased twice, and the world is as the backend
-- keeps it.
use microsanbox_cloud.Prelude.{ℕ, zero, suc, ◌+◌, Option, none, some, Text, List, [], ◌∷◌}
use microsanbox_cloud.Effects.Keeps.{
  Keeps, Keeps-or_throw, Keeps-guard, Keeps-choice, Keeps-after, Keeps-recover,
}
use microsanbox_cloud.Database.{RuntimeEntity, RuntimePortBindingRecord}
use microsanbox_cloud.Config.{AppConfig}
use microsanbox_cloud.Registry.{find_runtime_by_sandbox_id_or_name, normalize_name}
use microsanbox_cloud.Registry.Volumes.{find_volume_by_id_or_name, find_volume}
use microsanbox_cloud.Control.Types.{Backend, EnsureRuntimeDto, RuntimeSpec, RuntimeVolumeMountDto}
use microsanbox_cloud.Control.Spec.{resolve_volumes, require_volume}
use microsanbox_cloud.Control.Build.{build_spec, first_port_binding}
use microsanbox_cloud.Control.Ports.{assign_ports}
use microsanbox_cloud.Control.Health.{wait_rounds, wait_for_healthy}
use microsanbox_cloud.Control.Provision.{
  check_name, launch, ssh_healthy, finish, start_up, existing, fresh, branch, provision,
}
use microsanbox_cloud.Control.Exclusive.{
  DbSafe, normalized-Keeps, find-Keeps, IsKept, Safe, lease-Keeps, active_at-Keeps, update-Keeps,
  current_healthy-Keeps, reuse-Keeps, mark_replacing-Keeps, create_row-Keeps,
}

module _ {W : Type 0} (config : AppConfig) (b : Backend W) (Q : W → Type 0)
    (kept : IsKept b Q) where
  assign_ports-Keeps :
      (r : RuntimeEntity) (ports : List RuntimePortBindingRecord)
      → Keeps (Safe Q) (assign_ports config b r ports)
  unfolding assign_ports
  assign_ports-Keeps r ports s p =
      Keeps-choice (Safe Q) _ _ _ s
        (Keeps-after (Safe Q) _ _ (lease-Keeps config b Q kept r.id _ s p) λ leased s p. p)
        (Keeps-after (Safe Q) _ _
          (Keeps-choice (Safe Q) _ _ _ s (lease-Keeps config b Q kept r.id _ s p) p)
          λ leased s p. p)

  launch-Keeps :
      (r : RuntimeEntity) (spec : RuntimeSpec) (ports : List RuntimePortBindingRecord)
      → Keeps (Safe Q) (launch config b r spec ports)
  unfolding launch
  launch-Keeps r spec ports s p =
      Keeps-recover (Safe Q) _ _ (p.0, kept.create_detached_runtime _ s.world p.1)
        λ e s p. Keeps-choice (Safe Q) _ _ _ s p p

  wait_rounds-Keeps : (n deadline port : ℕ) → Keeps (Safe Q) (wait_rounds config b n deadline port)
  unfolding wait_rounds
  wait_rounds-Keeps zero deadline port s p = p
  wait_rounds-Keeps (suc n) deadline port s p =
      Keeps-after (Safe Q) _ _ (p.0, kept.is_healthy port s.world p.1)
        λ healthy s p. Keeps-choice (Safe Q) _ _ _ s p (
          Keeps-after (Safe Q) _ _ (p.0, kept.sleep _ s.world p.1)
            λ _ s p.
              Keeps-after (Safe Q) _ _ (p.0, kept.now s.world p.1)
                λ time s p. Keeps-choice (Safe Q) _ _ _ s (wait_rounds-Keeps n deadline port s p) p)

  wait_for_healthy-Keeps : (port : ℕ) → Keeps (Safe Q) (wait_for_healthy config b port)
  unfolding wait_for_healthy
  wait_for_healthy-Keeps port s p =
      Keeps-after (Safe Q) _ _ (p.0, kept.now s.world p.1)
        λ time s p.
          wait_rounds-Keeps (suc config.runtime_ready_timeout_ms)
            (time + config.runtime_ready_timeout_ms) port s p

  ssh_healthy-Keeps :
      (o : Option RuntimePortBindingRecord) → Keeps (Safe Q) (ssh_healthy config b o)
  unfolding ssh_healthy
  ssh_healthy-Keeps none s p = p
  ssh_healthy-Keeps (some x) s p = wait_for_healthy-Keeps x.host_port s p

  first-Keeps : (ports : List RuntimePortBindingRecord) → Keeps (Safe Q) (first_port_binding ports)
  unfolding first_port_binding
  first-Keeps [] s p = p
  first-Keeps (x ∷ ports) s p = p

  finish-Keeps :
      (input : EnsureRuntimeDto) (name : Option Text) (spec : RuntimeSpec) (r : RuntimeEntity)
      (ports : List RuntimePortBindingRecord)
      → Keeps (Safe Q) (finish config b input name spec r ports)
  unfolding finish
  finish-Keeps input name spec r ports s p =
      Keeps-after (Safe Q) _ _ (first-Keeps ports s p) λ primary s p.
        Keeps-after (Safe Q) _ _ (wait_for_healthy-Keeps primary.host_port s p) λ app s p.
          Keeps-after (Safe Q) _ _ (ssh_healthy-Keeps _ s p) λ ssh s p.
            Keeps-after (Safe Q) _ _ (active_at-Keeps config b Q kept input.refresh_activity r s p)
              λ active s p. update-Keeps config b Q kept r _ s p

  pub start_up-Keeps :
      (input : EnsureRuntimeDto) (name : Option Text) (spec : RuntimeSpec)
      (made : RuntimeEntity × List RuntimePortBindingRecord)
      → Keeps (Safe Q) (start_up config b input name spec made)
  unfolding start_up
  start_up-Keeps input name spec (r, specified) s p =
      Keeps-after (Safe Q) _ _ (assign_ports-Keeps r specified s p) λ ports s p.
        Keeps-after (Safe Q) _ _ (launch-Keeps r spec ports s p)
          λ _ s p. finish-Keeps input name spec r ports s p

  branch-Keeps :
      (input : EnsureRuntimeDto) (name : Option Text) (spec : RuntimeSpec) (id : Text)
      (primary : RuntimePortBindingRecord) (found : Option RuntimeEntity)
      → Keeps (Safe Q) (branch config b input name spec id primary found)
  unfolding branch existing fresh
  branch-Keeps input name spec id primary (some r) s p =
      Keeps-choice (Safe Q) _ _ _ s
        (Keeps-after (Safe Q) _ _ (mark_replacing-Keeps config b Q kept input name spec r s p)
          λ replaced s p. start_up-Keeps input name spec (replaced, spec.ports) s p)
        (Keeps-after (Safe Q) _ _ (current_healthy-Keeps config b Q kept r s p) λ healthy s p.
          Keeps-choice (Safe Q) _ _ _ s (reuse-Keeps config b Q kept input name spec r s p)
            (start_up-Keeps input name spec (r, spec.ports) s p))
  branch-Keeps input name spec id primary none s p =
      Keeps-after (Safe Q) _ _ (create_row-Keeps config b Q kept id name spec primary s p)
        λ made s p. start_up-Keeps input name spec made s p

  check_name-Keeps : (name : Option Text) (id : Text) → Keeps (Safe Q) (check_name config b name id)
  unfolding check_name find_runtime_by_sandbox_id_or_name
  check_name-Keeps none id s p = p
  check_name-Keeps (some name) id s p =
      Keeps-after (Safe Q) _ _
        (Keeps-after DbSafe _ _ (normalized-Keeps DbSafe name s.db p.0) (λ key db p. p), p.1)
        λ found s p. Keeps-guard (Safe Q) _ _ s p

  pub normalize_name-Keeps :
      {S : Type 0} (P : S → Type 0) (name : Option Text) → Keeps P (normalize_name name)
  unfolding normalize_name
  normalize_name-Keeps P none s p = p
  normalize_name-Keeps P (some value) s p =
      Keeps-choice P _ _ _ s p (Keeps-after P _ _ (normalized-Keeps P value s p) λ name s p. p)

  resolve_volumes-Keeps :
      (mounts : List RuntimeVolumeMountDto) → Keeps DbSafe (resolve_volumes mounts)
  unfolding resolve_volumes require_volume find_volume_by_id_or_name
  resolve_volumes-Keeps [] db p = p
  resolve_volumes-Keeps (mount ∷ mounts) db p =
      Keeps-after DbSafe _ _
        (Keeps-after DbSafe _ _
          (Keeps-after DbSafe _ _ (normalize_name-Keeps DbSafe _ db p) λ name db p. found name db p)
          λ volume db p. Keeps-or_throw DbSafe _ _ db p)
        λ volume db p.
          Keeps-choice DbSafe _ _ _ db p
            (Keeps-after DbSafe _ _ (resolve_volumes-Keeps mounts db p) λ rest db p. p)
    where
      found : (name : Option Text) → Keeps DbSafe (find_volume mount.volume_id name)
      found none db p = p
      found (some name) db p = p

  pub provision-Keeps :
      (input : EnsureRuntimeDto) (id : Text) → Keeps (Safe Q) (provision config b input id)
  unfolding provision build_spec
  provision-Keeps input id s p =
      Keeps-after (Safe Q) _ _ (normalize_name-Keeps (Safe Q) input.name s p) λ name s p.
        Keeps-after (Safe Q) _ _ (check_name-Keeps name id s p) λ _ s p.
          Keeps-after (Safe Q) _ _ (find-Keeps id s.db p.0, p.1)
            λ found s p.
              Keeps-after (Safe Q) _ _
                (Keeps-after DbSafe _ _ (resolve_volumes-Keeps _ s.db p.0) (λ volumes db p. p), p.1)
                λ spec s p.
                  Keeps-after (Safe Q) _ _ (first-Keeps spec.ports s p)
                    λ primary s p. branch-Keeps input name spec id primary found s p
