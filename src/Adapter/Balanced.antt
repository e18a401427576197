-- ===== src/Adapter/Balanced.antt =====
-- The requests of the service over the adapter, and the sandboxes that they leave open.
use microsanbox_cloud.Prelude.{
  ℕ, zero, suc, ◌+◌, ◌≡◌, arith, sym, subst, true, List, Option, none, some, Text, leb, is_empty,
}
use microsanbox_cloud.Text.{trim}
use microsanbox_cloud.Effects.{Error, Outcome, ok, err, Eff, pure, ◌>>=◌}
use microsanbox_cloud.Effects.Keeps.{
  Keeps, Keeps-after, Keeps-bind, Keeps-catch, Keeps-choice, Keeps-guard,
}
use microsanbox_cloud.Config.{AppConfig}
use microsanbox_cloud.Guards.{AuthHeader}
use microsanbox_cloud.Registry.Apart.{Exclusive}
use microsanbox_cloud.Control.Types.{Service, RuntimeRegistryAuthDto}
use microsanbox_cloud.Control.Build.{positive}
use microsanbox_cloud.Control.Exclusive.{IsKept}
use microsanbox_cloud.Control.Routes.{Route}
use microsanbox_cloud.Control.Requests.{serve_all, serve_all-Keeps}
use microsanbox_cloud.Adapter.Library.{Library, finally, best_effort}
use microsanbox_cloud.Adapter.Sandboxes.{
  get_sandbox_handle, handle_or_none, get_status, is_healthy, ensure_volume, remove_volume,
}
use microsanbox_cloud.Adapter.Cli.{run_microsandbox_cli}
use microsanbox_cloud.Adapter.Stopping.{
  is_stopped, kill_found, stop_rounds, wait_for_sandbox_stop, stop, remove_found, remove,
}
use microsanbox_cloud.Adapter.Images.{
  ensure_microsandbox_runtime_installed, list_cached_images, pull, login_registry, logout_registry,
  pull_with_login, pull_missing, pull_image,
}
use microsanbox_cloud.Adapter.Service.{Platform, backend_of}
use microsanbox_cloud.Adapter.Counting.{
  Calls, KeepsCalls, Balance, Balanced, kept, KeepsCount, IsCounted, IsTracked, counted-IsTracked,
  settled-state,
}
use microsanbox_cloud.Adapter.Connections.{
  exec-KeepsCount, refresh_activity-KeepsCount, write_files-KeepsCount, read_files-KeepsCount,
  start-KeepsCount, create_detached_runtime-KeepsCount,
}

-- The calls that are counted neither as an opening nor as a `detach`.
pub record IsUncounted {W H B : Type 0} (lib : Library W H B) (platform : Platform W)
    (calls : W → Calls) : Type 0 where
  pub stop : (h : H) → KeepsCalls calls (lib.stop h)
  pub kill : (h : H) → KeepsCalls calls (lib.kill h)
  pub remove : (h : H) → KeepsCalls calls (lib.remove h)
  pub spawn : (args : List Text) (stdin : Option Text) → KeepsCalls calls (lib.spawn args stdin)
  pub list_images : KeepsCalls calls lib.list_images
  pub get_image : (reference : Text) → KeepsCalls calls (lib.get_image reference)
  pub get_volume : (name : Text) → KeepsCalls calls (lib.get_volume name)
  pub create_volume :
      (name : Text) (quota : Option ℕ) → KeepsCalls calls (lib.create_volume name quota)
  pub remove_volume : (name : Text) → KeepsCalls calls (lib.remove_volume name)
  pub connects : (port : ℕ) → KeepsCalls calls (lib.connects port)
  pub draw : (size : ℕ) → KeepsCalls calls (platform.draw size)
  pub new_id : KeepsCalls calls platform.new_id

module _ {W H B : Type 0} (config : AppConfig) (lib : Library W H B) (platform : Platform W)
    (calls : W → Calls) (from : Calls) (counted : IsTracked lib (Balanced calls from))
    (uncounted : IsUncounted lib platform calls) where
  abbrev Open : W → Type 0
  Open = Balanced calls from 0

  uncounted-Keeps : {A : Type 0} (m : Eff W A) → KeepsCalls calls m → Keeps Open m
  uncounted-Keeps m h w p = kept calls from (h w) 0 p

  cli-Keeps :
      (args : List Text) (stdin : Option Text) → Keeps Open (run_microsandbox_cli lib args stdin)
  unfolding run_microsandbox_cli
  cli-Keeps args stdin w p = kept calls from (uncounted.spawn args stdin w) 0 p

  get_sandbox_handle-Keeps : (name : Text) → Keeps Open (get_sandbox_handle lib name)
  unfolding KeepsCount get_sandbox_handle handle_or_none
  get_sandbox_handle-Keeps name w p = found _ (counted.get_sandbox name 0 w p)
    where
      found : (r : Outcome H × W) → Open r.1 → Open (handle_or_none lib r).1
      found (ok h, w) p = p
      found (err e, w) p = p

  get_status-Keeps : (name : Text) → Keeps Open (get_status lib name)
  unfolding get_status
  get_status-Keeps name = Keeps-bind Open _ _ (get_sandbox_handle-Keeps name) λ h w p. p

  kill_found-Keeps : (found : Option H) → Keeps Open (kill_found config lib found)
  unfolding KeepsCount kill_found best_effort
  kill_found-Keeps none w p = p
  kill_found-Keeps (some h) w p = kept calls from (uncounted.kill h w) 0 p

  stop_rounds-Keeps :
      (rounds deadline : ℕ) (name : Text) → Keeps Open (stop_rounds config lib rounds deadline name)
  unfolding stop_rounds
  stop_rounds-Keeps zero deadline name w p = p
  stop_rounds-Keeps (suc rounds) deadline name w p =
      Keeps-after Open _ _ (get_status-Keeps name w p) λ status v p.
        Keeps-choice Open (is_stopped status) _ _ v p (
          Keeps-choice Open (leb deadline (lib.clock v)) _ _ v
            (Keeps-bind Open (get_sandbox_handle lib name) _ (get_sandbox_handle-Keeps name)
              kill_found-Keeps v p)
            (Keeps-choice Open _ _ _ _
              (stop_rounds-Keeps rounds deadline name _ (counted.delay _ 0 v p))
              (counted.delay _ 0 v p)))

  waited-Keeps : (name : Text) → Keeps Open (wait_for_sandbox_stop config lib name)
  unfolding wait_for_sandbox_stop
  waited-Keeps name w =
      stop_rounds-Keeps (suc config.runtime_ready_timeout_ms)
        (lib.clock w + config.runtime_ready_timeout_ms) name w

  stop-Keeps : (name : Text) → Keeps Open (stop config lib name)
  unfolding KeepsCount stop
  stop-Keeps name = Keeps-bind Open _ _ (counted.get_sandbox name 0) λ h.
      Keeps-bind Open _ _ (uncounted-Keeps (lib.stop h) (uncounted.stop h)) λ u. waited-Keeps name

  best_effort-Keeps : (m : Eff W (Unit {0})) → Keeps Open m → Keeps Open (best_effort m)
  unfolding best_effort
  best_effort-Keeps m k = k

  remove_found-Keeps :
      (name : Text) (found : Option H) → Keeps Open (remove_found config lib name found)
  unfolding KeepsCount remove_found
  remove_found-Keeps name none = λ w p. p
  remove_found-Keeps name (some h) =
      Keeps-bind Open _ _
        (best_effort-Keeps (lib.stop h) (uncounted-Keeps (lib.stop h) (uncounted.stop h)))
        λ u. Keeps-bind Open _ _ (waited-Keeps name) λ v.
          Keeps-catch Open _ _ (uncounted-Keeps (lib.remove h) (uncounted.remove h))
            λ e. cli-Keeps _ none

  remove-Keeps : (name : Text) → Keeps Open (remove config lib name)
  unfolding remove
  remove-Keeps name = Keeps-bind Open _ _ (get_sandbox_handle-Keeps name) (remove_found-Keeps name)

  finally-Keeps :
      {A : Type 0} (m : Eff W A) (last : Eff W (Unit {0}))
      → Keeps Open m
      → Keeps Open last
      → Keeps Open (finally m last)
  unfolding finally
  finally-Keeps m last k l w p =
      subst Open (sym (settled-state (Balanced calls from) (m w).0 (last (m w).1))) (l _ (k w p))

  pull_with_login-Keeps :
      (reference : Text) (auth : Option RuntimeRegistryAuthDto) (e : Error)
      → Keeps Open (pull_with_login lib reference auth e)
  unfolding KeepsCount pull_with_login pull login_registry logout_registry
  pull_with_login-Keeps reference none e = λ w p. p
  pull_with_login-Keeps reference (some auth) e =
      Keeps-bind Open (login_registry lib auth) _ (cli-Keeps _ _) λ u.
        finally-Keeps (pull lib reference) (best_effort (logout_registry lib auth.server))
          (cli-Keeps _ _) (best_effort-Keeps (logout_registry lib auth.server) (cli-Keeps _ _))

  pull_missing-Keeps :
      (reference : Text) (auth : Option RuntimeRegistryAuthDto)
      → Keeps Open (pull_missing lib reference auth)
  unfolding KeepsCount pull_missing ensure_microsandbox_runtime_installed pull
  pull_missing-Keeps reference auth =
      Keeps-bind Open _ _ (λ w p. Keeps-guard Open _ _ w p)
        λ _.
          Keeps-bind Open _ _
            (Keeps-catch Open _ _ ((cli-Keeps _ _)) (pull_with_login-Keeps reference auth))
            λ _.
              Keeps-bind Open _ _
                (uncounted-Keeps (lib.get_image reference) (uncounted.get_image reference))
                λ info w p. p

  pull_image-Keeps :
      (reference : Text) (auth : Option RuntimeRegistryAuthDto)
      → Keeps Open (pull_image lib reference auth)
  unfolding KeepsCount pull_image
  pull_image-Keeps reference auth w p = Keeps-choice Open (is_empty (trim reference)) _ _ w p (
      Keeps-catch Open (lib.get_image (trim reference) >>= λ info. pure (info, true)) _
        (Keeps-bind Open (lib.get_image (trim reference)) _
          (uncounted-Keeps (lib.get_image (trim reference)) (uncounted.get_image (trim reference)))
          (λ info w p. p))
        (λ e. pull_missing-Keeps (trim reference) auth) w p)

  adapter-IsKept : IsKept (backend_of config lib platform) Open
  unfolding KeepsCount backend_of list_cached_images ensure_volume remove_volume best_effort
      is_healthy
  adapter-IsKept = record {
    list_cached_images = uncounted-Keeps lib.list_images uncounted.list_images;
    pull_image = pull_image-Keeps;
    ensure_volume = λ name quota.
        Keeps-catch Open _ _ (uncounted-Keeps (lib.get_volume name) (uncounted.get_volume name))
          λ e.
            uncounted-Keeps (lib.create_volume name (positive quota))
              (uncounted.create_volume name (positive quota));
    remove_volume = λ name w p. kept calls from (uncounted.remove_volume name w) 0 p;
    create_detached_runtime =
        λ input. create_detached_runtime-KeepsCount lib (Balanced calls from) counted input 0;
    start =
        λ name command dir. start-KeepsCount lib (Balanced calls from) counted name command dir 0;
    stop = stop-Keeps;
    remove = remove-Keeps;
    exec =
        λ name command args. exec-KeepsCount lib (Balanced calls from) counted name command args 0;
    refresh_activity = λ name. refresh_activity-KeepsCount lib (Balanced calls from) counted name 0;
    write_files =
        λ name files. write_files-KeepsCount lib (Balanced calls from) counted name files 0;
    read_files = λ name paths. read_files-KeepsCount lib (Balanced calls from) counted name paths 0;
    get_status = get_status-Keeps;
    is_healthy = λ port w p. kept calls from (uncounted.connects port w) 0 p;
    now = λ w p. p;
    sleep = λ ms w p. counted.delay ms 0 w p;
    draw = λ size w p. kept calls from (uncounted.draw size w) 0 p;
    new_id = λ w p. kept calls from (uncounted.new_id w) 0 p;
  }

module _ {W H B : Type 0} (config : AppConfig) (lib : Library W H B) (platform : Platform W)
    (token : Text) (calls : W → Calls) (counted : IsCounted lib calls)
    (uncounted : IsUncounted lib platform calls) where
  -- Where `calls` counts the calls by which the adapter connected to, started or created a sandbox,
  -- if they returned, and the calls of `detach`, whatever they came to: over any sequence of requests
  -- on any routes of the service over the adapter, from tables in which no port is leased twice, and
  -- whether the requests succeed or throw at any step, both numbers grow by the same.
  pub serve_all-balanced :
      (requests : List (AuthHeader × Route)) (s : Service W)
      → Exclusive s.db.leases
      → let after_all = serve_all config (backend_of config lib platform) token requests s in
        (calls after_all.world).opens + (calls s.world).detaches
        ≡ (calls after_all.world).detaches + (calls s.world).opens
  unfolding Balance
  serve_all-balanced requests s apart =
      let start : Balanced calls (calls s.world) 0 s.world = omega arith in
      let safe =
        serve_all-Keeps config (backend_of config lib platform) token
          (Balanced calls (calls s.world) 0)
          (adapter-IsKept config lib platform calls (calls s.world)
            (counted-IsTracked calls (calls s.world) lib counted) uncounted)
          requests s (apart, start) in
      let end : Balanced calls (calls s.world) 0
          (serve_all config (backend_of config lib platform) token requests s).world =
        safe.1 in
      omega (arith, end)
