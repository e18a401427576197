-- ===== src/Adapter/Commands.antt =====
-- The commands that the adapter runs in a sandbox neither open a sandbox nor give one up.
use microsanbox_cloud.Prelude.{
  none, ℕ, zero, suc, ◌+◌, ◌-◌, ◌*◌, ◌≡◌, refl, sym, subst, Bool, not, ◌||◌, ◌&&◌, Bool-cases, inl,
  inr, List, [], Option, Text, ltb, ◌==◌, is_empty,
}
use microsanbox_cloud.Effects.{Error, Eff, backend}
use microsanbox_cloud.Effects.Keeps.{Keeps-choice}
use microsanbox_cloud.Control.Spec.{or_else}
use microsanbox_cloud.Adapter.Library.{Library}
use microsanbox_cloud.Adapter.SshFiles.{
  GuestArch, read_or_empty, read_binary, read_gateway_public_key,
}
use microsanbox_cloud.Adapter.Launch.{
  delay, is_retryable_exec_error, with_timeout, exec_with_timeout, attempts,
  exec_with_transient_retry, launch_managed_command, inject_with, inject_ssh_binary, set_up_ssh,
}
use microsanbox_cloud.Adapter.Counting.{
  KeepsCount, IsTracked, KeepsCount-best_effort, KeepsCount-pure, KeepsCount-bind, KeepsCount-catch,
  KeepsCount-throw, KeepsCount-choice,
}

module _ {W H B : Type 0} (lib : Library W H B) (Open : ℕ → W → Type 0)
    (counted : IsTracked lib Open) where
  pub with_timeout-state :
      {A : Type 0} (m : Eff W A) (ms : ℕ) (message : Text) (w : W)
      → (with_timeout lib m ms message w).1 ≡ (m w).1
  unfolding with_timeout
  with_timeout-state m ms message w = elim (Bool-cases (ltb ms (lib.clock (m w).1 - lib.clock w))) [
    | inl e ↦ rw e refl
    | inr e ↦ rw e refl
  ]

  exec_with_timeout-KeepsCount :
      (b : B) (command : Text) (args : List Text)
      → KeepsCount Open (exec_with_timeout lib b command args)
  unfolding exec_with_timeout KeepsCount
  exec_with_timeout-KeepsCount b command args n w h =
      subst (Open n) (sym (with_timeout-state (lib.exec b command args) _ _ w))
        (counted.exec b command args n w h)

  delay-KeepsCount : (ms : ℕ) → KeepsCount Open (delay lib ms)
  unfolding KeepsCount
  delay-KeepsCount ms n w h = counted.delay ms n w h

  attempts-KeepsCount :
      (left attempt : ℕ) (last : Error) (b : B) (command : Text) (args : List Text)
      → KeepsCount Open (attempts lib left attempt last b command args)
  unfolding attempts
  attempts-KeepsCount zero attempt last b command args = KeepsCount-throw Open _ last
  attempts-KeepsCount (suc left) attempt last b command args =
      KeepsCount-catch Open _ _ (exec_with_timeout-KeepsCount b command args) λ e.
        KeepsCount-choice Open (not (is_retryable_exec_error e) || attempt == 3) _ _
          (KeepsCount-throw Open _ e)
          (KeepsCount-bind Open _ _ (delay-KeepsCount (250 * attempt))
            (λ u. attempts-KeepsCount left (attempt + 1) e b command args))

  exec_with_transient_retry-KeepsCount :
      (b : B) (command : Text) (args : List Text)
      → KeepsCount Open (exec_with_transient_retry lib b command args)
  unfolding exec_with_transient_retry
  exec_with_transient_retry-KeepsCount = attempts-KeepsCount 3 1 (backend [])

  pub launch_managed_command-KeepsCount :
      (b : B) (command : Option (List Text)) (dir : Option Text) (ssh : Bool)
      → KeepsCount Open (launch_managed_command lib b command dir ssh)
  unfolding launch_managed_command
  launch_managed_command-KeepsCount b command dir ssh =
      KeepsCount-choice Open (is_empty (or_else command []) && not ssh) _ _ (KeepsCount-pure Open _)
        (KeepsCount-bind Open _ _ (exec_with_transient_retry-KeepsCount b _ _)
          (λ o. KeepsCount-pure Open _))

  read_or_empty-KeepsCount : (path : Text) → KeepsCount Open (read_or_empty lib path)
  unfolding read_or_empty KeepsCount
  read_or_empty-KeepsCount path n w h =
      Keeps-choice (Open n) (lib.exists path w) _ _ w (counted.read_file path n w h) h

  key-KeepsCount : KeepsCount Open (read_gateway_public_key lib)
  unfolding read_gateway_public_key
  key-KeepsCount =
      KeepsCount-bind Open _ _ (read_or_empty-KeepsCount _) (λ key. KeepsCount-pure Open _)

  binary-KeepsCount : (arch : Option GuestArch) → KeepsCount Open (read_binary lib arch)
  unfolding read_binary
  binary-KeepsCount arch = read_or_empty-KeepsCount _

  inject_with-KeepsCount : (b : B) (binary : Text) → KeepsCount Open (inject_with lib b binary)
  unfolding inject_with
  inject_with-KeepsCount b binary = KeepsCount-bind Open _ _ (counted.write b _ binary) λ u1.
      KeepsCount-bind Open _ _ (exec_with_transient_retry-KeepsCount b _ _) λ u2.
        KeepsCount-bind Open _ _ key-KeepsCount λ key.
          KeepsCount-bind Open _ _ (KeepsCount-best_effort Open _ (counted.mkdir b _)) λ u3.
            KeepsCount-bind Open _ _ (counted.write b _ _) λ u4. KeepsCount-best_effort Open _ (
              KeepsCount-bind Open _ _ (exec_with_transient_retry-KeepsCount b _ _)
                (λ o. KeepsCount-pure Open _))

  pub set_up_ssh-KeepsCount : (b : B) (ssh : Bool) → KeepsCount Open (set_up_ssh lib b ssh)
  unfolding set_up_ssh inject_ssh_binary
  set_up_ssh-KeepsCount b ssh =
      KeepsCount-choice Open ssh _ _
        (KeepsCount-best_effort Open _ (
          KeepsCount-bind Open _ _ (binary-KeepsCount none) λ binary.
            KeepsCount-choice Open (is_empty binary) _ _ (KeepsCount-pure Open _)
              (inject_with-KeepsCount b binary)))
        (KeepsCount-pure Open _)
