-- ===== src/Control/Guarding.antt =====
-- Which routes answer a request without the internal token.
use microsanbox_cloud.Prelude.{
  ◌≡◌, refl, Bool, true, false, not, ◌&&◌, Text, [], if◌then◌else◌, Bool-cases, inl, inr,
}
use microsanbox_cloud.Effects.{err, after, unauthorized}
use microsanbox_cloud.Guards.{AuthHeader, absent, can_activate}
use microsanbox_cloud.Config.{AppConfig}
use microsanbox_cloud.Control.Types.{Backend, Service}
use microsanbox_cloud.Control.Monad.{M}
use microsanbox_cloud.Control.Routes.{
  sandbox_route, link_route, access_route, volume_route, image_route, preview_route, get_health,
  Route, Answer, guarded, respond, respond_sandboxes, respond_links, respond_access,
  respond_volumes, respond_images, respond_previews, get_sandboxes, get_volumes, get_images,
  post_sandboxes, post_ensure, put_sandbox, get_sandbox, post_start, post_stop, delete_sandbox,
  get_url, get_signed_url, post_expire, post_exec, post_refresh, post_files, post_download,
  post_volume, get_one_volume, delete_one_volume, post_pull, get_public, get_validate, get_resolve,
}

-- All routes but the check of the health and the three that check a preview.
unfoldable pub needs_token : Route → Bool
needs_token (preview_route r) = false
needs_token get_health = false
needs_token _ = true

guarded-eq :
    {W : Type 0} (token : Text) (h : AuthHeader) (m : M W Answer) (s : Service W)
    → guarded token h m s
      ≡ (if not (can_activate token h) then (err unauthorized, s) else guarded [] absent m s)
unfolding guarded after can_activate
guarded-eq token h m s = elim (Bool-cases (can_activate token h)) [
  | inl e ↦ rw e refl
  | inr e ↦ rw e refl
]

module _ {W : Type 0} (config : AppConfig) (b : Backend W) (token : Text) where
  -- On every route but the check of the health and the three that check a preview, a request
  -- without the internal token is unauthorized and changes nothing. Every other request is answered
  -- as if no token were configured, with the same changes; on those four routes whatever its header.
  pub respond-eq :
      (h : AuthHeader) (r : Route) (s : Service W)
      → respond config b token h r s ≡ (
          if needs_token r && not (can_activate token h)
          then (err unauthorized, s)
          else respond config b [] absent r s)
  unfolding respond respond_sandboxes respond_links respond_access respond_volumes respond_images
      respond_previews needs_token
  respond-eq h (sandbox_route get_sandboxes) s = guarded-eq token h _ s
  respond-eq h (volume_route get_volumes) s = guarded-eq token h _ s
  respond-eq h (image_route get_images) s = guarded-eq token h _ s
  respond-eq h (sandbox_route (post_sandboxes body)) s = guarded-eq token h _ s
  respond-eq h (sandbox_route (post_ensure body)) s = guarded-eq token h _ s
  respond-eq h (sandbox_route (put_sandbox id body)) s = guarded-eq token h _ s
  respond-eq h (sandbox_route (get_sandbox value)) s = guarded-eq token h _ s
  respond-eq h (sandbox_route (post_start value)) s = guarded-eq token h _ s
  respond-eq h (sandbox_route (post_stop value)) s = guarded-eq token h _ s
  respond-eq h (sandbox_route (delete_sandbox value)) s = guarded-eq token h _ s
  respond-eq h (link_route (get_url value port)) s = guarded-eq token h _ s
  respond-eq h (link_route (get_signed_url value port)) s = guarded-eq token h _ s
  respond-eq h (link_route (post_expire value port preview)) s = guarded-eq token h _ s
  respond-eq h (access_route (post_exec value body)) s = guarded-eq token h _ s
  respond-eq h (access_route (post_refresh value)) s = guarded-eq token h _ s
  respond-eq h (access_route (post_files value body)) s = guarded-eq token h _ s
  respond-eq h (access_route (post_download value body)) s = guarded-eq token h _ s
  respond-eq h (volume_route (post_volume body)) s = guarded-eq token h _ s
  respond-eq h (volume_route (get_one_volume value)) s = guarded-eq token h _ s
  respond-eq h (volume_route (delete_one_volume value)) s = guarded-eq token h _ s
  respond-eq h (image_route (post_pull reference auth)) s = guarded-eq token h _ s
  respond-eq h (preview_route (get_public value)) s = refl
  respond-eq h (preview_route (get_validate value preview)) s = refl
  respond-eq h (preview_route (get_resolve preview port)) s = refl
  respond-eq h get_health s = refl
