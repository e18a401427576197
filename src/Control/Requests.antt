-- ===== src/Control/Requests.antt =====
-- The requests of the service, one after the other.
use microsanbox_cloud.Prelude.{Text, List, [], ◌∷◌}
use microsanbox_cloud.Effects.Keeps.{Keeps, Keeps-after, Keeps-guard}
use microsanbox_cloud.Guards.{AuthHeader}
use microsanbox_cloud.Config.{AppConfig}
use microsanbox_cloud.Registry.Volumes.{ensure_local_host}
use microsanbox_cloud.Registry.Apart.{Exclusive}
use microsanbox_cloud.Control.Types.{Backend, Service}
use microsanbox_cloud.Control.Monad.{M}
use microsanbox_cloud.Control.Exclusive.{Safe, IsKept}
use microsanbox_cloud.Control.Listing.{list_sandboxes, list_volume_rows, list_images}
use microsanbox_cloud.Control.Kept.{
  create-Keeps, ensure-Keeps, update-Keeps, start-Keeps, stop-Keeps, delete-Keeps, get-Keeps,
  exec-Keeps, refresh-Keeps, write-Keeps, download-Keeps,
}
use microsanbox_cloud.Control.KeptLinks.{
  get_volume-Keeps, remove_volume-Keeps, create_volume-Keeps, pull_image-Keeps, public_state-Keeps,
  validate-Keeps, expire-Keeps, resolve-Keeps, url-Keeps, signed_url-Keeps,
}
use microsanbox_cloud.Control.Routes.{
  sandbox_route, link_route, access_route, volume_route, image_route, preview_route, get_health,
  health, Route, Answer, answer, guarded, respond, respond_sandboxes, respond_links, respond_access,
  respond_volumes, respond_images, respond_previews, get_sandboxes, get_volumes, get_images,
  post_sandboxes, post_ensure, put_sandbox, get_sandbox, post_start, post_stop, delete_sandbox,
  get_url, get_signed_url, post_expire, post_exec, post_refresh, post_files, post_download,
  post_volume, get_one_volume, delete_one_volume, post_pull, get_public, get_validate, get_resolve,
}

-- Of any world nothing is asked.
any_world : {W : Type 0} (b : Backend W) → IsKept b (λ w. Unit {0})
any_world b = record {
  list_cached_images = λ w p. tt;
  pull_image = λ a b w p. tt;
  ensure_volume = λ a b w p. tt;
  remove_volume = λ a w p. tt;
  create_detached_runtime = λ a w p. tt;
  start = λ a b c w p. tt;
  stop = λ a w p. tt;
  remove = λ a w p. tt;
  exec = λ a b c w p. tt;
  refresh_activity = λ a w p. tt;
  write_files = λ a b w p. tt;
  read_files = λ a b w p. tt;
  get_status = λ a w p. tt;
  is_healthy = λ a w p. tt;
  now = λ w p. tt;
  sleep = λ a w p. tt;
  draw = λ a w p. tt;
  new_id = λ w p. tt;
}

module _ {W : Type 0} (config : AppConfig) (b : Backend W) (token : Text) where
  -- A request that throws leaves the state that it reached.
  unfoldable pub serve_all : List (AuthHeader × Route) → Service W → Service W
  unfolding respond
  serve_all [] s = s
  serve_all ((header, route) ∷ requests) s =
      serve_all requests (respond config b token header route s).1

  module _ (Q : W → Type 0) (kept : IsKept b Q) where
    answer-Keeps :
        {A : Type 0} (make : A → Answer) (m : M W A)
        → Keeps (Safe Q) m
        → Keeps (Safe Q) (answer make m)
    answer-Keeps make m k s p = Keeps-after (Safe Q) _ _ (k s p) λ a s p. p

    guarded-Keeps :
        {A : Type 0} (h : AuthHeader) (make : A → Answer) (m : M W A)
        → Keeps (Safe Q) m
        → Keeps (Safe Q) (guarded token h (answer make m))
    unfolding guarded
    guarded-Keeps h make m k s p =
        Keeps-after (Safe Q) _ _ (Keeps-guard (Safe Q) _ _ s p) λ _. answer-Keeps make m k

    health-Keeps : Keeps (Safe Q) (health config b token)
    unfolding health ensure_local_host
    health-Keeps s p =
        Keeps-after (Safe Q) _ _ (p.0, kept.now s.world p.1)
          λ time s p.
            Keeps-after (Safe Q) _ _ p
              λ u s p. Keeps-after (Safe Q) _ _ (p.0, kept.now s.world p.1) λ timestamp s p. p

    respond-Keeps : (h : AuthHeader) (r : Route) → Keeps (Safe Q) (respond config b token h r)
    unfolding respond respond_sandboxes respond_links respond_access respond_volumes respond_images
        respond_previews list_sandboxes list_volume_rows list_images
    respond-Keeps h (sandbox_route get_sandboxes) = guarded-Keeps h _ _ (λ s p. p)
    respond-Keeps h (volume_route get_volumes) = guarded-Keeps h _ _ (λ s p. p)
    respond-Keeps h (image_route get_images) =
        guarded-Keeps h _ _ (λ s p. (p.0, kept.list_cached_images s.world p.1))
    respond-Keeps h (sandbox_route (post_sandboxes body)) =
        guarded-Keeps h _ _ (create-Keeps config b Q kept body)
    respond-Keeps h (sandbox_route (post_ensure body)) =
        guarded-Keeps h _ _ (ensure-Keeps config b Q kept body)
    respond-Keeps h (sandbox_route (put_sandbox id body)) =
        guarded-Keeps h _ _ (update-Keeps config b Q kept id body)
    respond-Keeps h (sandbox_route (get_sandbox v)) =
        guarded-Keeps h _ _ (get-Keeps config b Q kept v)
    respond-Keeps h (sandbox_route (post_start v)) =
        guarded-Keeps h _ _ (start-Keeps config b Q kept v)
    respond-Keeps h (sandbox_route (post_stop v)) =
        guarded-Keeps h _ _ (stop-Keeps config b Q kept v)
    respond-Keeps h (sandbox_route (delete_sandbox v)) =
        guarded-Keeps h _ _ (delete-Keeps config b Q kept v)
    respond-Keeps h (link_route (get_url v port)) =
        guarded-Keeps h _ _ (url-Keeps config b Q kept v port)
    respond-Keeps h (link_route (get_signed_url v port)) =
        guarded-Keeps h _ _ (signed_url-Keeps config b Q kept v port)
    respond-Keeps h (link_route (post_expire v port preview)) =
        guarded-Keeps h _ _ (expire-Keeps config b Q kept v port preview)
    respond-Keeps h (access_route (post_exec v body)) =
        guarded-Keeps h _ _ (exec-Keeps config b Q kept v body.command _)
    respond-Keeps h (access_route (post_refresh v)) =
        guarded-Keeps h _ _ (refresh-Keeps config b Q kept v)
    respond-Keeps h (access_route (post_files v body)) =
        guarded-Keeps h _ _ (write-Keeps config b Q kept v body.files)
    respond-Keeps h (access_route (post_download v body)) =
        guarded-Keeps h _ _ (download-Keeps config b Q kept v body.paths)
    respond-Keeps h (volume_route (post_volume body)) =
        guarded-Keeps h _ _ (create_volume-Keeps config b Q kept body.name body.quota_mib)
    respond-Keeps h (volume_route (get_one_volume v)) =
        guarded-Keeps h _ _ (get_volume-Keeps config b Q kept v)
    respond-Keeps h (volume_route (delete_one_volume v)) =
        guarded-Keeps h _ _ (remove_volume-Keeps config b Q kept v)
    respond-Keeps h (image_route (post_pull reference auth)) =
        guarded-Keeps h _ _ (pull_image-Keeps config b Q kept _ _)
    respond-Keeps h (preview_route (get_public v)) =
        answer-Keeps _ _ (public_state-Keeps config b Q kept v)
    respond-Keeps h (preview_route (get_validate v preview)) =
        answer-Keeps _ _ (validate-Keeps config b Q kept v preview)
    respond-Keeps h (preview_route (get_resolve preview port)) =
        answer-Keeps _ _ (resolve-Keeps config b Q kept preview port)
    respond-Keeps h get_health = health-Keeps

    pub serve_all-Keeps :
        (requests : List (AuthHeader × Route)) (s : Service W)
        → Safe Q s
        → Safe Q (serve_all requests s)
    unfolding serve_all
    serve_all-Keeps [] s p = p
    serve_all-Keeps ((h, r) ∷ requests) s p =
        serve_all-Keeps requests (respond config b token h r s).1 (respond-Keeps h r s p)

  -- Whatever the backend does, no sequence of requests on any routes leads from a state in which no
  -- port is leased twice to one in which a port is, whether the requests succeed or throw.
  pub serve_all-Exclusive :
      (requests : List (AuthHeader × Route)) (s : Service W)
      → Exclusive s.db.leases
      → Exclusive (serve_all requests s).db.leases
  serve_all-Exclusive requests s p =
      (serve_all-Keeps (λ w. Unit {0}) (any_world b) requests s (p, tt)).0
