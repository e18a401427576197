-- ===== src/Control/Waiting.antt =====
-- The bound on the rounds of `waitForHealthy`.
use microsanbox_cloud.Prelude.{
  ◌≡◌, refl, sym, subst, ap, ℕ, zero, suc, ◌+◌, ◌≤◌, Bool, true, false, arith, ltb, ltb→lt,
  Bool-cases, inl, inr,
}
use microsanbox_cloud.Effects.{Outcome, ok, err, Eff, pure, ◌>>=◌, ◌>>◌, after, when◌then◌else◌}
use microsanbox_cloud.Config.{AppConfig}
use microsanbox_cloud.Control.Types.{Service, Backend}
use microsanbox_cloud.Control.Monad.{M, on_world, get_value, modify_world}
use microsanbox_cloud.Control.Health.{wait_rounds, wait_for_healthy}

-- Two continuations that agree on what a step returns.
after-cong :
    {S A B : Type 0} (m : Outcome A × S) (f g : A → Eff S B)
    → ((a : A) (s : S) → m ≡ (ok a, s) → f a s ≡ g a s)
    → after m f ≡ after m g
unfolding after
after-cong (ok a, s) f g h = h a s refl
after-cong (err e, s) f g h = refl

-- The clock of the world does not go back, and a sleep lasts as long as was asked for.
pub record IsClock {W : Type 0} (b : Backend W) (time : W → ℕ) : Type 0 where
  pub read : (w : W) → (b.now w).0 ≡ time w
  pub read_kept : (w : W) → time w ≤ time (b.now w).1
  pub slept : (ms : ℕ) (w : W) → time w + ms ≤ time (b.sleep ms w)
  pub checked : (port : ℕ) (w : W) → time w ≤ time (b.is_healthy port w).1

module _ {W : Type 0} (config : AppConfig) (b : Backend W) (time : W → ℕ) (clock : IsClock b time)
    (polls : 1 ≤ config.runtime_ready_poll_interval_ms) (port : ℕ) where
  -- The time after a check of the health, a sleep, and the reading of the time.
  abbrev later : W → W
  later w = b.sleep config.runtime_ready_poll_interval_ms w

  next_time : (w : W) → time w + 1 ≤ (b.now (later w)).0
  next_time w =
      omega
        (arith, clock.slept config.runtime_ready_poll_interval_ms w, clock.read (later w), polls)

  next_world : (w : W) → time w + 1 ≤ time (b.now (later w)).1
  next_world w =
      omega (
        arith,
        clock.slept config.runtime_ready_poll_interval_ms w,
        clock.read_kept (later w),
        polls,
      )

  -- What follows the check of the health.
  abbrev checked_then : ℕ → M W Bool → Bool → M W Bool
  checked_then deadline k healthy = when healthy then pure true else (do
    modify_world (b.sleep config.runtime_ready_poll_interval_ms)
    t ← get_value b.now
    (when ltb t deadline then k else pure false))

  -- Two rounds are equal if what follows them is, where the deadline has not passed.
  round-cong :
      (deadline : ℕ) (k l : M W Bool) (s : Service W)
      → ((w : W)
          → time s.world ≤ time w
          → ltb (b.now (later w)).0 deadline ≡ true
          → k (record s { world = (b.now (later w)).1 })
            ≡ l (record s { world = (b.now (later w)).1 }))
      → (on_world (b.is_healthy port) >>= checked_then deadline k) s
        ≡ (on_world (b.is_healthy port) >>= checked_then deadline l) s
  unfolding after when◌then◌else◌
  round-cong deadline k l s h =
      after-cong (on_world (b.is_healthy port) s) (checked_then deadline k)
        (checked_then deadline l)
        λ healthy s1 e.
          subst (λ t. checked_then deadline k healthy t ≡ checked_then deadline l healthy t)
            (ap (λ p. p.1) e) (same healthy)
    where
      world1 : W
      world1 = (b.is_healthy port s.world).1

      same :
          (healthy : Bool)
          → checked_then deadline k healthy (record s { world = world1 })
            ≡ checked_then deadline l healthy (record s { world = world1 })
      same true = refl
      same false = elim (Bool-cases (ltb (b.now (later world1)).0 deadline)) [
        | inl e ↦ rw e (h world1 (clock.checked port s.world) e)
        | inr e ↦ rw e refl
      ]

  enough :
      (rounds bigger deadline : ℕ) (s : Service W)
      → rounds ≤ bigger
      → deadline ≤ time s.world + rounds
      → wait_rounds config b (suc bigger) deadline port s
        ≡ wait_rounds config b (suc rounds) deadline port s
  unfolding wait_rounds
  enough zero bigger deadline s le h =
      round-cong deadline _ _ s
        λ w kept early. absurd (omega (arith, next_time w, kept, h, ltb→lt _ _ early))
  enough (suc rounds) zero deadline s le h = absurd (omega (arith, le))
  enough (suc rounds) (suc bigger) deadline s le h = round-cong deadline _ _ s λ w kept early.
      enough rounds bigger deadline _ (omega (arith, le)) (omega (arith, next_world w, kept, h))

  -- With a clock that does not go back, and an interval of at least a millisecond, more rounds than
  -- `wait_for_healthy` has do not change what it does: the deadline ends it first.
  pub wait_for_healthy-bound :
      (more : ℕ) (s : Service W)
      → wait_for_healthy config b port s
        ≡ (get_value b.now >>= λ t.
              wait_rounds config b
                (suc (config.runtime_ready_timeout_ms + more))
                (t + config.runtime_ready_timeout_ms)
                port)
            s
  unfolding wait_for_healthy after
  wait_for_healthy-bound more s = sym (
      enough config.runtime_ready_timeout_ms _ _ _ (omega arith)
        (omega (arith, clock.read s.world, clock.read_kept s.world)))
