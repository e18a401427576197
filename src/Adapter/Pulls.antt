-- ===== src/Adapter/Pulls.antt =====
-- The commands that `pullImage` runs, each with whether it succeeded, and what it returns.
use mathlib.Core.List.{append-nil, append_assoc}
use microsanbox_cloud.Prelude.{
  ◌==◌, ◌≡◌, refl, sym, subst, ap, ◌∙◌, Bool, true, false, List, [], ◌∷◌, ◌++◌, Option, none, some,
  Text, codes, is_empty, Bool-cases, inl, inr,
}
use microsanbox_cloud.Text.{trim}
use microsanbox_cloud.Effects.{
  image_required, backend, Outcome, Error, ok, err, pure, ◌>>=◌, after, recover, when◌then◌else◌,
}
use microsanbox_cloud.Control.Types.{ImageInfo, RuntimeRegistryAuthDto}
use microsanbox_cloud.Adapter.Cli.{run_microsandbox_cli, cli_outcome, is_success}
use microsanbox_cloud.Adapter.Library.{
  Spawned, not_found, failed, closed, Library, finally, settled, best_effort,
}
use microsanbox_cloud.Adapter.Images.{
  ensure_microsandbox_runtime_installed, pull, login_registry, logout_registry, pull_with_login,
  pull_missing, pull_image,
}

abbrev pub pull_args : Text → List Text
pull_args reference = codes "pull" ∷ reference ∷ []

abbrev pub login_args : RuntimeRegistryAuthDto → List Text
login_args auth =
    codes "registry"
    ∷ codes "login"
    ∷ codes "--username"
    ∷ auth.username
    ∷ codes "--password-stdin"
    ∷ auth.server
    ∷ []

abbrev pub logout_args : Text → List Text
logout_args server = codes "registry" ∷ codes "logout" ∷ server ∷ []

abbrev pub Command : Type 0
Command = List Text × Bool

-- A process succeeds if it ends with the code 0.
unfoldable pub succeeded : Spawned → Bool
succeeded (closed (some code) stderr) = code == 0
succeeded _ = false

-- The commands for an image that is not cached, each with whether it succeeded, and the outcome.
pub data IsFetch (reference : Text) (auth : Option RuntimeRegistryAuthDto)
    : Outcome (ImageInfo × Bool) → List Command → Type 0 where
  pulled :
      (info : ImageInfo)
      → IsFetch reference auth (ok (info, false)) ((pull_args reference, true) ∷ [])
  no_image : (e : Error) → IsFetch reference auth (err e) ((pull_args reference, true) ∷ [])
  not_pulled :
      (e : Error) → auth ≡ none → IsFetch reference auth (err e) ((pull_args reference, false) ∷ [])
  not_logged_in :
      (a : RuntimeRegistryAuthDto) (e : Error)
      → auth ≡ some a
      → IsFetch reference auth (err e) ((pull_args reference, false) ∷ (login_args a, false) ∷ [])
  logged_out :
      (a : RuntimeRegistryAuthDto) (info : ImageInfo) (out : Bool)
      → auth ≡ some a
      → IsFetch reference auth (ok (info, false)) (
          (pull_args reference, false)
          ∷ (login_args a, true)
          ∷ (pull_args reference, true)
          ∷ (logout_args a.server, out)
          ∷ [])
  failed_logged_out :
      (a : RuntimeRegistryAuthDto) (e : Error) (again out : Bool)
      → auth ≡ some a
      → IsFetch reference auth (err e) (
          (pull_args reference, false)
          ∷ (login_args a, true)
          ∷ (pull_args reference, again)
          ∷ (logout_args a.server, out)
          ∷ [])

-- The outcome and the commands of `pullImage`, by what the lookup of the image answered and
-- whether the runtime is installed. The flag of a result says that the image was cached.
pub data IsPull (reference : Text) (auth : Option RuntimeRegistryAuthDto)
    (looked : Outcome ImageInfo) (installed : Bool)
    : Outcome (ImageInfo × Bool) → List Command → Type 0 where
  no_reference :
      is_empty reference ≡ true → IsPull reference auth looked installed (err image_required) []
  cached :
      (info : ImageInfo)
      → is_empty reference ≡ false
      → looked ≡ ok info
      → IsPull reference auth looked installed (ok (info, true)) []
  not_installed :
      (e : Error) (message : Text)
      → is_empty reference ≡ false
      → looked ≡ err e
      → installed ≡ false
      → IsPull reference auth looked installed (err (backend message)) []
  fetched :
      (e : Error) {o : Outcome (ImageInfo × Bool)} {ran : List Command}
      → is_empty reference ≡ false
      → looked ≡ err e
      → installed ≡ true
      → IsFetch reference auth o ran
      → IsPull reference auth looked installed o ran

returned : Outcome (Unit {0}) → Bool
returned (ok u) = true
returned (err e) = false

returned-cli_outcome :
    (args : List Text) (p : Spawned) → returned (cli_outcome args p) ≡ succeeded p
unfolding returned cli_outcome succeeded is_success
returned-cli_outcome args not_found = refl
returned-cli_outcome args (failed message) = refl
returned-cli_outcome args (closed none stderr) = refl
returned-cli_outcome args (closed (some code) stderr) = elim (Bool-cases (code == 0)) [
  | inl e ↦ rw e refl
  | inr e ↦ rw e refl
]

module _ {W H B : Type 0} (lib : Library W H B) (commands : W → List Command)
    (run : (args : List Text) (stdin : Option Text) (w : W)
      → commands (lib.spawn args stdin w).1
        ≡ commands w ++ (args, succeeded (lib.spawn args stdin w).0) ∷ [])
    (get_image_kept : (reference : Text) (w : W)
      → commands (lib.get_image reference w).1 ≡ commands w) where
  -- The commands before, and an outcome and a state after.
  Ran :
      Text → Option RuntimeRegistryAuthDto → List Command → Outcome (ImageInfo × Bool) × W → Type 0
  Ran reference auth before (o, w) =
      (ran : List Command) × (commands w ≡ before ++ ran) × IsFetch reference auth o ran

  -- The image after its pull, with the commands run so far.
  image_got :
      (reference : Text) (auth : Option RuntimeRegistryAuthDto) (before ran : List Command) (w : W)
      → commands w ≡ before ++ ran
      → ((info : ImageInfo) → IsFetch reference auth (ok (info, false)) ran)
      → ((e : Error) → IsFetch reference auth (err e) ran)
      → Ran reference auth before (after (lib.get_image reference w) (λ info. pure (info, false)))
  unfolding Ran after
  image_got reference auth before ran w h k l =
      got (lib.get_image reference w) (get_image_kept reference w ∙ h)
    where
      got :
          (r : Outcome ImageInfo × W)
          → commands r.1 ≡ before ++ ran
          → Ran reference auth before (after r (λ info. pure (info, false)))
      got (ok info, u) eq = (ran, eq, k info)
      got (err e, u) eq = (ran, eq, l e)

  -- One more command.
  one_more :
      (before ran : List Command) (args : List Text) (stdin : Option Text) (w : W)
      → commands w ≡ before ++ ran
      → commands (run_microsandbox_cli lib args stdin w).1
        ≡ before ++ (ran ++ (args, returned (run_microsandbox_cli lib args stdin w).0) ∷ [])
  unfolding run_microsandbox_cli
  one_more before ran args stdin w h =
      run args stdin w
      ∙ ap (λ cs. cs ++ (args, succeeded (lib.spawn args stdin w).0) ∷ []) h
      ∙ append_assoc before ran _
      ∙ ap (λ b. before ++ (ran ++ (args, b) ∷ []))
          (sym (returned-cli_outcome args (lib.spawn args stdin w).0))

  settled_out :
      (reference : Text) (a : RuntimeRegistryAuthDto) (before : List Command)
      → (r : Outcome (Unit {0}) × W)
      → commands r.1
        ≡ before
          ++ ((pull_args reference, false)
              ∷ (login_args a, true)
              ∷ (pull_args reference, returned r.0)
              ∷ [])
      → Ran reference (some a) before (
          after
            (settled r.0 (best_effort (logout_registry lib a.server) r.1))
            (λ u. lib.get_image reference >>= λ info. pure (info, false)))
  unfolding Ran after settled best_effort logout_registry returned
  settled_out reference a before (ok u, v) h =
      image_got reference (some a) before _ _ (one_more before _ (logout_args a.server) none v h)
        (λ info. logged_out a info _ refl) (λ e. failed_logged_out a e true _ refl)
  settled_out reference a before (err e, v) h =
      (_, one_more before _ (logout_args a.server) none v h, failed_logged_out a e false _ refl)

  -- What the pull has come to, with the image fetched after it.
  abbrev with_image : Text → Outcome (Unit {0}) × W → Outcome (ImageInfo × Bool) × W
  with_image reference r = after r (λ u. lib.get_image reference >>= λ info. pure (info, false))

  logged_in :
      (reference : Text) (a : RuntimeRegistryAuthDto) (before : List Command)
      → (r : Outcome (Unit {0}) × W)
      → commands r.1 ≡ before ++ ((pull_args reference, false) ∷ (login_args a, returned r.0) ∷ [])
      → Ran reference (some a) before (
          with_image reference (
            after r
              (λ u. finally (pull lib reference) (best_effort (logout_registry lib a.server)))))
  unfolding Ran after finally pull returned
  logged_in reference a before (ok u, v) h =
      settled_out reference a before (run_microsandbox_cli lib (pull_args reference) none v)
        (one_more before _ (pull_args reference) none v h)
  logged_in reference a before (err e, v) h = (_, h, not_logged_in a e refl)

  tried :
      (reference : Text) (auth : Option RuntimeRegistryAuthDto) (before : List Command)
      → (r : Outcome (Unit {0}) × W)
      → commands r.1 ≡ before ++ ((pull_args reference, returned r.0) ∷ [])
      → Ran reference auth before
          (with_image reference (recover r (pull_with_login lib reference auth)))
  unfolding Ran after recover pull_with_login login_registry returned
  tried reference auth before (ok u, v) h =
      image_got reference auth before _ v h (λ info. pulled info) (λ e. no_image e)
  tried reference none before (err e, v) h = (_, h, not_pulled e refl)
  tried reference (some a) before (err e, v) h =
      logged_in reference a before (run_microsandbox_cli lib (login_args a) (some a.password) v)
        (one_more before _ (login_args a) (some a.password) v h)

  -- A state before, by what the lookup of the image answered, and an outcome and a state after.
  Done :
      Text
      → Option RuntimeRegistryAuthDto
      → Outcome ImageInfo × W
      → Outcome (ImageInfo × Bool) × W
      → Type 0
  Done reference auth looked (o, w) =
      (ran : List Command) × (commands w ≡ commands looked.1 ++ ran)
      × IsPull reference auth looked.0 (lib.is_installed looked.1) o ran

  tried-Done :
      (reference : Text) (auth : Option RuntimeRegistryAuthDto) (e : Error) (w : W)
      (r : Outcome (ImageInfo × Bool) × W)
      → is_empty reference ≡ false
      → lib.is_installed w ≡ true
      → Ran reference auth (commands w) r
      → Done reference auth (err e, w) r
  unfolding Ran Done
  tried-Done reference auth e w (o, v) shown installed (ran, h, fetch) =
      (ran, h, fetched e shown refl installed fetch)

  missing :
      (reference : Text) (auth : Option RuntimeRegistryAuthDto) (e : Error) (w : W)
      → is_empty reference ≡ false
      → Done reference auth (err e, w) (pull_missing lib reference auth w)
  unfolding pull_missing ensure_microsandbox_runtime_installed pull after Done
  missing reference auth e w shown = elim (Bool-cases (lib.is_installed w)) [
    | inl i ↦
        let all = tried-Done reference auth e w _ shown i (
          tried reference auth (commands w) (run_microsandbox_cli lib (pull_args reference) none w)
            (one_more (commands w) [] (pull_args reference) none w
              (sym (append-nil (commands w))))) in
        let same : pull_missing lib reference auth w
            ≡ with_image reference (
                recover (run_microsandbox_cli lib (pull_args reference) none w)
                  (pull_with_login lib reference auth)) =
          rw i refl in
        subst (Done reference auth (err e, w)) (sym same) all
    | inr i ↦ rw i ([], sym (append-nil (commands w)), not_installed e _ shown refl refl)
  ]

  looked_up :
      (reference : Text) (auth : Option RuntimeRegistryAuthDto) (r : Outcome ImageInfo × W)
      → is_empty reference ≡ false
      → Done reference auth r
          (recover (after r (λ info. pure (info, true))) (λ e. pull_missing lib reference auth))
  unfolding Done after recover
  looked_up reference auth (ok info, v) shown =
      ([], sym (append-nil (commands v)), cached info shown refl)
  looked_up reference auth (err e, v) shown = missing reference auth e v shown

  from_lookup :
      (reference : Text) (auth : Option RuntimeRegistryAuthDto) (w : W)
      (looked : Outcome ImageInfo × W) (r : Outcome (ImageInfo × Bool) × W)
      → commands looked.1 ≡ commands w
      → Done reference auth looked r
      → (ran : List Command) × (commands r.1 ≡ commands w ++ ran)
        × IsPull reference auth looked.0 (lib.is_installed looked.1) r.0 ran
  unfolding Done
  from_lookup reference auth w looked (o, v) kept (ran, h, p) = (ran, rw kept at h, p)

  -- Where `commands` lists the processes that were started, each with whether it ended with the code
  -- 0, and the lookup of an image starts none: `pullImage` throws for a blank reference, and runs no
  -- command for a cached image or where the runtime is not installed. Else it runs one anonymous
  -- pull, and no other command if that one succeeds or no credentials are given. If it fails, a login
  -- follows, and only if the login succeeds a second pull and then, as the last command and whatever
  -- they come to, the logout from the same registry. It returns an image that was not cached only
  -- after a pull that succeeded.
  pub pull_image-commands :
      (reference : Text) (auth : Option RuntimeRegistryAuthDto) (w : W)
      → (ran : List Command) × (commands (pull_image lib reference auth w).1 ≡ commands w ++ ran)
        × IsPull
            (trim reference)
            auth
            (lib.get_image (trim reference) w).0
            (lib.is_installed (lib.get_image (trim reference) w).1)
            (pull_image lib reference auth w).0
            ran
  unfolding pull_image when◌then◌else◌
  pull_image-commands reference auth w = elim (Bool-cases (is_empty (trim reference))) [
    | inl e ↦ rw e ([], sym (append-nil (commands w)), no_reference e)
    | inr e ↦ rw e (
        from_lookup (trim reference) auth w (lib.get_image (trim reference) w) _
          (get_image_kept (trim reference) w)
          (looked_up (trim reference) auth (lib.get_image (trim reference) w) e))
  ]
