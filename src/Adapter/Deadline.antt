-- ===== src/Adapter/Deadline.antt =====
-- The loop of `waitForSandboxStop`: it ends, and how it ends at the deadline.
use microsanbox_cloud.Prelude.{
  ℕ, zero, suc, ◌+◌, ◌≤◌, ◌<◌, ◌≡◌, refl, sym, ◌∙◌, Option, none, some, Text, leb, ltb, arith,
  ltb→lt, leb→le, ◌⊎◌, Bool-cases, inl, inr,
}
use microsanbox_cloud.Effects.{Outcome, ok, err, Eff, pure, ◌>>=◌, after, when◌then◌else◌}
use microsanbox_cloud.Config.{AppConfig}
use microsanbox_cloud.Adapter.Library.{Library}
use microsanbox_cloud.Adapter.Sandboxes.{handle_or_none, get_sandbox_handle, get_status}
use microsanbox_cloud.Adapter.Stopping.{is_stopped, kill_found, stop_rounds, wait_for_sandbox_stop}

module _ {W H B : Type 0} (config : AppConfig) (lib : Library W H B) where
  status_of_call :
      (r : Outcome H × W)
      → (status : Option Text) × (after
            (handle_or_none lib r)
            (λ handle. pure (elim handle [ none ↦ none | some h ↦ some (lib.status h) ]))
          ≡ (ok status, r.1))
  unfolding after handle_or_none
  status_of_call (ok h, u) = (some (lib.status h), refl)
  status_of_call (err e, u) = (none, refl)

  -- A read of the status returns, and changes the state as the library's call does.
  get_status-ok :
      (name : Text) (w : W)
      → (status : Option Text) × (get_status lib name w ≡ (ok status, (lib.get_sandbox name w).1))
  unfolding get_status get_sandbox_handle
  get_status-ok name w = status_of_call (lib.get_sandbox name w)

  -- The part of a round behind the read of the status.
  stop_round : Eff W (Unit {0}) → ℕ → Text → Option Text → Eff W (Unit {0})
  stop_round next deadline name status = when is_stopped status then pure tt else λ w.
      (when leb deadline (lib.clock w)
          then (get_sandbox_handle lib name >>= kill_found config lib)
          else λ w'.
              (when ltb (lib.clock (lib.delay config.runtime_ready_poll_interval_ms w')) deadline
                  then next
                  else pure tt)
                (lib.delay config.runtime_ready_poll_interval_ms w'))
        w

  stop_rounds-step :
      (deadline : ℕ) (name : Text) (w : W)
      → (status : Option Text) × ((rounds : ℕ)
          → stop_rounds config lib (suc rounds) deadline name w
            ≡ stop_round
                (stop_rounds config lib rounds deadline name)
                deadline
                name
                status
                (lib.get_sandbox name w).1)
  unfolding stop_rounds stop_round after
  stop_rounds-step deadline name w =
      let (status, e) = get_status-ok name w in (status, λ rounds. rw e refl)

  module _ (read : (name : Text) (w : W) → lib.clock w ≤ lib.clock (lib.get_sandbox name w).1)
      (slept : (ms : ℕ) (w : W) → lib.clock w < lib.clock (lib.delay ms w)) where
    stop_round-cong :
        (next other : Eff W (Unit {0})) (deadline : ℕ) (name : Text) (status : Option Text) (w : W)
        → ((u : W) → lib.clock w < lib.clock u → lib.clock u < deadline → next u ≡ other u)
        → stop_round next deadline name status w ≡ stop_round other deadline name status w
    unfolding stop_round when◌then◌else◌
    stop_round-cong next other deadline name status w h = elim (Bool-cases (is_stopped status)) [
      | inl e ↦ rw e refl
      | inr e ↦ rw e (elim (Bool-cases (leb deadline (lib.clock w))) [
        | inl f ↦ rw f refl
        | inr f ↦
            rw f
              (elim (Bool-cases
                (ltb (lib.clock (lib.delay config.runtime_ready_poll_interval_ms w)) deadline)) [
                  | inl g ↦ rw g (h _ (slept _ w) (ltb→lt _ _ g))
                  | inr g ↦ rw g refl
                ])
      ])
    ]

    -- Two bounds do the same if they do at each later time before the deadline.
    stop_rounds-cong :
        (n m deadline : ℕ) (name : Text) (w : W)
        → ((u : W)
            → lib.clock w < lib.clock u
            → lib.clock u < deadline
            → stop_rounds config lib n deadline name u ≡ stop_rounds config lib m deadline name u)
        → stop_rounds config lib (suc n) deadline name w
          ≡ stop_rounds config lib (suc m) deadline name w
    stop_rounds-cong n m deadline name w h =
        let (status, e) = stop_rounds-step deadline name w in
        e n
        ∙ stop_round-cong _ _ deadline name status (lib.get_sandbox name w).1
            (λ u l g. h u (omega (arith, read name w, l)) g)
        ∙ sym (e m)

    rounds_enough :
        (n m deadline : ℕ) (name : Text) (w : W)
        → deadline ≤ lib.clock w + n
        → deadline ≤ lib.clock w + m
        → lib.clock w < deadline
        → stop_rounds config lib n deadline name w ≡ stop_rounds config lib m deadline name w
    rounds_enough zero m deadline name w h k l = absurd (omega (arith, h, l))
    rounds_enough (suc n) zero deadline name w h k l = absurd (omega (arith, k, l))
    rounds_enough (suc n) (suc m) deadline name w h k l =
        stop_rounds-cong n m deadline name w
          (λ u g. rounds_enough n m deadline name u (omega (arith, h, g)) (omega (arith, k, g)))

    -- The loop that waits for a sandbox to stop ends within its bound on the rounds, one round for
    -- each millisecond of the timeout and one more: with any greater bound it does the same. The
    -- clock must not go back while a status is read, and must go on during each delay.
    pub wait_for_sandbox_stop-rounds :
        (more : ℕ) (name : Text) (w : W)
        → stop_rounds config lib
            (suc (config.runtime_ready_timeout_ms + more))
            (lib.clock w + config.runtime_ready_timeout_ms)
            name
            w
          ≡ wait_for_sandbox_stop config lib name w
    unfolding wait_for_sandbox_stop
    wait_for_sandbox_stop-rounds more name w = stop_rounds-cong _ _ _ name w (λ u l.
        rounds_enough (config.runtime_ready_timeout_ms + more) config.runtime_ready_timeout_ms
          (lib.clock w + config.runtime_ready_timeout_ms) name u (omega (arith, l))
          (omega (arith, l)))

  -- The worlds in which a round of the wait begins as long as it goes on, the first of them `w`.
  pub data Polled (name : Text) : W → W → Type 0 where
    now : {w : W} → Polled name w w
    later :
        {w u : W}
        → Polled name (lib.delay config.runtime_ready_poll_interval_ms (lib.get_sandbox name w).1) u
        → Polled name w u

  -- A round that begins before the deadline, and reads the status until the deadline or later.
  pub IsLate : ℕ → Text → W → Type 0
  IsLate deadline name w =
      (u : W) × Polled name w u
      × (lib.clock u < deadline)
      × (deadline ≤ lib.clock (lib.get_sandbox name u).1)

  module _ (killed : W → ℕ)
      (read_kept : (name : Text) (w : W) → killed (lib.get_sandbox name w).1 ≡ killed w)
      (delay_kept : (ms : ℕ) (w : W) → killed (lib.delay ms w) ≡ killed w) where
    stop_round-killed :
        (next : Eff W (Unit {0})) (deadline : ℕ) (name : Text) (status : Option Text) (w : W)
        → lib.clock w < deadline
        → (let u = lib.delay config.runtime_ready_poll_interval_ms (lib.get_sandbox name w).1 in
            lib.clock u < deadline → (killed (next u).1 ≡ killed u) ⊎ IsLate deadline name u)
        → (killed (stop_round next deadline name status (lib.get_sandbox name w).1).1 ≡ killed w)
          ⊎ IsLate deadline name w
    unfolding stop_round when◌then◌else◌ IsLate
    stop_round-killed next deadline name status w l h = elim (Bool-cases (is_stopped status)) [
      | inl e ↦ rw e (inl (read_kept name w))
      | inr e ↦ elim (Bool-cases (leb deadline (lib.clock (lib.get_sandbox name w).1))) [
        | inl late ↦ inr (w, now, l, leb→le _ _ late)
        | inr f ↦ elim (Bool-cases (ltb (lib.clock after_delay) deadline)) [
          | inl g ↦
              rw (e, f, g)
                (elim (h (ltb→lt _ _ g)) [
                  | inl same ↦ inl (same ∙ kept)
                  | inr (u, polled, early, late) ↦ inr (u, later polled, early, late)
                ])
          | inr g ↦ rw (e, f, g) (inl kept)
        ]
      ]
    ]
      where
        after_delay : W
        after_delay = lib.delay config.runtime_ready_poll_interval_ms (lib.get_sandbox name w).1

        kept : killed after_delay ≡ killed w
        kept = delay_kept _ _ ∙ read_kept name w

    rounds_killed :
        (rounds deadline : ℕ) (name : Text) (w : W)
        → lib.clock w < deadline
        → (killed (stop_rounds config lib rounds deadline name w).1 ≡ killed w)
          ⊎ IsLate deadline name w
    unfolding stop_rounds
    rounds_killed zero deadline name w l = inl refl
    rounds_killed (suc rounds) deadline name w l =
        let (status, e) = stop_rounds-step deadline name w in
        rw (e rounds) (
          stop_round-killed _ deadline name status w l
            (λ g. rounds_killed rounds deadline name _ g))

    -- Where the timeout is not 0, the wait ends without a `kill`, also when the sandbox never stops,
    -- or else the deadline passed while a round of the wait read the status: the loop itself leaves
    -- at the deadline. Neither the read of a status nor a delay counts as a `kill`.
    pub wait_for_sandbox_stop-kills-IsLate :
        (name : Text) (w : W)
        → 1 ≤ config.runtime_ready_timeout_ms
        → (killed (wait_for_sandbox_stop config lib name w).1 ≡ killed w)
          ⊎ IsLate (lib.clock w + config.runtime_ready_timeout_ms) name w
    unfolding wait_for_sandbox_stop
    wait_for_sandbox_stop-kills-IsLate name w l =
        rounds_killed (suc config.runtime_ready_timeout_ms)
          (lib.clock w + config.runtime_ready_timeout_ms) name w (omega (arith, l))
