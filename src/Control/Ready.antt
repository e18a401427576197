-- ===== src/Control/Ready.antt =====
-- A sandbox that becomes healthy in time is seen to be healthy.
use microsanbox_cloud.Prelude.{
  ◌≡◌, refl, ℕ, zero, suc, ◌+◌, ◌≤◌, ◌<◌, Bool, true, false, arith, leb, leb→le, ltb, lt→ltb,
  Bool-cases, inl, inr,
}
use microsanbox_cloud.Effects.{Outcome, ok, after, when◌then◌else◌}
use microsanbox_cloud.Config.{AppConfig}
use microsanbox_cloud.Control.Types.{Service, Backend}
use microsanbox_cloud.Control.Health.{wait_rounds, wait_for_healthy}
use microsanbox_cloud.Control.Waiting.{IsClock}

-- From a time on the port answers, and a check with the sleep after it lasts no longer than `round`.
pub record IsReady {W : Type 0} (config : AppConfig) (b : Backend W) (time : W → ℕ) (port : ℕ)
    (ready round : ℕ) : Type 0 where
  pub answers : (w : W) → (healthy : Bool) × ((b.is_healthy port w).0 ≡ ok healthy)
  pub healthy_from : (w : W) → ready ≤ time w → (b.is_healthy port w).0 ≡ ok true
  pub round_ends :
      (w : W)
      → time (b.sleep config.runtime_ready_poll_interval_ms (b.is_healthy port w).1)
        ≤ time w + round

module _ {W : Type 0} (config : AppConfig) (b : Backend W) (time : W → ℕ) (clock : IsClock b time)
    (polls : 1 ≤ config.runtime_ready_poll_interval_ms) (port ready round : ℕ)
    (is_ready : IsReady config b time port ready round) where
  abbrev Succeeds : Outcome Bool × Service W → Type 0
  Succeeds r = r.0 ≡ ok true

  -- The world after a round.
  abbrev next : W → W
  next w = b.sleep config.runtime_ready_poll_interval_ms (b.is_healthy port w).1

  abbrev after_round : Service W → Service W
  after_round s = record s { world = (b.now (next s.world)).1 }

  -- A round in which the port may not be ready, where the rounds after it succeed.
  one_round :
      (n deadline : ℕ) (s : Service W)
      → time s.world + round < deadline
      → Succeeds (wait_rounds config b n deadline port (after_round s))
      → Succeeds (wait_rounds config b (suc n) deadline port s)
  unfolding wait_rounds after when◌then◌else◌
  one_round n deadline s early rest = go (is_ready.answers s.world).0 (is_ready.answers s.world).1
    where
      in_time : ltb (b.now (next s.world)).0 deadline ≡ true
      in_time =
          lt→ltb _ _ (omega (arith, clock.read (next s.world), is_ready.round_ends s.world, early))

      go :
          (healthy : Bool)
          → (b.is_healthy port s.world).0 ≡ ok healthy
          → Succeeds (wait_rounds config b (suc n) deadline port s)
      go true e = rw e refl
      go false e = rw (e, in_time) rest

  -- A round after the port is ready.
  last_round :
      (n deadline : ℕ) (s : Service W)
      → ready ≤ time s.world
      → Succeeds (wait_rounds config b (suc n) deadline port s)
  unfolding wait_rounds after when◌then◌else◌
  last_round n deadline s h = rw (is_ready.healthy_from s.world h) refl

  seen :
      (n deadline : ℕ) (s : Service W)
      → ready + round ≤ deadline
      → deadline ≤ time s.world + n
      → Succeeds (wait_rounds config b (suc n) deadline port s)
  seen zero deadline s early fuel = last_round zero deadline s (omega (arith, early, fuel))
  seen (suc n) deadline s early fuel = elim (Bool-cases (leb ready (time s.world))) [
    | inl e ↦ last_round (suc n) deadline s (leb→le _ _ e)
    | inr e ↦ one_round (suc n) deadline s (ground (arith, e, early)) (
        seen n deadline (after_round s) early (
          omega (
            arith,
            fuel,
            polls,
            clock.checked port s.world,
            clock.slept config.runtime_ready_poll_interval_ms (b.is_healthy port s.world).1,
            clock.read_kept (next s.world),
          )))
  ]

  -- `waitForHealthy` returns true where: the interval between the checks is at least a millisecond;
  -- the time that is read is the clock's, which does not go back while it is read or a port is
  -- checked, and a sleep lasts at least its milliseconds; the checks of the port do not throw, and
  -- each from the time `ready` on finds it healthy; a check with the sleep after it lasts no longer
  -- than `round`; and the time-out is no sooner than `round` after `ready`.
  pub wait_for_healthy-ready :
      (s : Service W)
      → ready + round ≤ time s.world + config.runtime_ready_timeout_ms
      → (wait_for_healthy config b port s).0 ≡ ok true
  unfolding wait_for_healthy after
  wait_for_healthy-ready s early =
      seen config.runtime_ready_timeout_ms _ _ (omega (arith, clock.read s.world, early))
        (omega (arith, clock.read s.world, clock.read_kept s.world))
