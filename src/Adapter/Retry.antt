-- ===== src/Adapter/Retry.antt =====
-- `execWithTransientRetry` beside a retry by a list of waiting times.
use microsanbox_cloud.Prelude.{ℕ, ◌≡◌, refl, Bool, true, false, not, ◌||◌, List, [], ◌∷◌, Text}
use microsanbox_cloud.Effects.{
  Outcome, Error, ok, err, Eff, throw, ◌>>◌, after, catch, recover, when◌then◌else◌,
}
use microsanbox_cloud.Adapter.Library.{Library}
use microsanbox_cloud.Adapter.Launch.{
  is_retryable_exec_error, exec_with_timeout, attempts, exec_with_transient_retry, delay,
}

-- Two handlers that do the same on every error.
recover-cong :
    {S A : Type 0} (m : Outcome A × S) (f g : Error → Eff S A)
    → ((e : Error) (s : S) → f e s ≡ g e s)
    → recover m f ≡ recover m g
unfolding recover
recover-cong (ok a, s) f g h = refl
recover-cong (err e, s) f g h = h e s

module _ {W H B : Type 0} (lib : Library W H B) where
  -- The effect is repeated after each of the waiting times, as long as it fails transiently.
  pub retrying : {A : Type 0} → List ℕ → Eff W A → Eff W A
  retrying [] m = m
  retrying (ms ∷ rest) m =
      catch m
        λ e. when is_retryable_exec_error e then (delay lib ms >> retrying rest m) else throw e

  -- The second and the third attempt, each with its own choice of the branch.
  retry_step :
      {A : Type 0} (b : Bool) (e : Error) (n f : Eff W A) (w : W)
      → n w ≡ f w
      → (when not b || false then throw e else n) w ≡ (when b then f else throw e) w
  unfolding when◌then◌else◌
  retry_step true e n f w h = h
  retry_step false e n f w h = refl

  last_step :
      {A : Type 0} (b : Bool) (e : Error) (n : Eff W A) (w : W)
      → (when not b || true then throw e else n) w ≡ (err e, w)
  unfolding when◌then◌else◌
  last_step true e n w = refl
  last_step false e n w = refl

  recover_throw :
      {A : Type 0} (m : Outcome A × W) (h : Error → Eff W A)
      → ((e : Error) (w : W) → h e w ≡ (err e, w))
      → recover m h ≡ m
  unfolding recover
  recover_throw (ok a, w) h eq = refl
  recover_throw (err e, w) h eq = eq e w

  module _ (sandbox : B) (command : Text) (args : List Text) where
    -- A command is run at most three times, 250 and 500 milliseconds after a transient failure, and
    -- the outcome is that of its last run: `lastError` is never thrown after the loop.
    pub exec_with_transient_retry-eq-retrying :
        (w : W)
        → exec_with_transient_retry lib sandbox command args w
          ≡ retrying (250 ∷ 500 ∷ []) (exec_with_timeout lib sandbox command args) w
    unfolding exec_with_transient_retry attempts retrying after
    exec_with_transient_retry-eq-retrying w = recover-cong _ _ _ λ e u.
        retry_step (is_retryable_exec_error e) e _ _ u (
          recover-cong _ _ _ λ e' v.
            retry_step (is_retryable_exec_error e') e' _ _ v
              (recover_throw _ _ λ e'' x. last_step (is_retryable_exec_error e'') e'' _ x))
