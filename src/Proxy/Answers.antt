-- ===== src/Proxy/Answers.antt =====
-- The answers of the proxy to requests and upgrades.
use microsanbox_cloud.Prelude.{
  ◌≡◌, refl, ◌↔◌, ◌⊎◌, inl, inr, ℕ, Option, none, some, Text, Option-cases,
}
use microsanbox_cloud.Text.{split}
use microsanbox_cloud.Effects.{
  Error, Outcome, ok, err, pure, after, recover, ok_parts, uri_malformed,
}
use microsanbox_cloud.Database.{RuntimeEntity}
use microsanbox_cloud.Guards.{AuthHeader}
use microsanbox_cloud.Control.Types.{Service, Backend}
use microsanbox_cloud.Control.Preview.{
  validate_proxy_access_by_sandbox, validate_proxy_access_by_signed_token,
}
use microsanbox_cloud.Proxy.{
  Url, ProxyMatch, signed, standard, signed_route, standard_match, extract_from, extract, forward,
  handle,
}
use microsanbox_cloud.Proxy.Serving.{
  HttpAnswer, web, not_found, failed, UpgradeAnswer, ws, destroyed, http_answer, upgrade_answer,
  status_of, handle_http, handle_upgrade, serve_http, serve_upgrade,
}
use microsanbox_cloud.Proxy.Forwarding.{IsPermitted}
use microsanbox_cloud.Control.Access.{validate_proxy_access_iff}
use microsanbox_cloud.Control.Links.{signed_token-IsFollowed}
use microsanbox_cloud.Proxy.Refusals.{IsRefused, sandbox-IsRefused, link-IsRefused}

-- The path that is forwarded, with the query.
abbrev pub path_of : ProxyMatch → Text
path_of (signed token port path) = path
path_of (standard id port path token) = path

-- The answer, by what was read of the URL: no match, a part that cannot be decoded, or a match that
-- its check permits or refuses.
pub data IsAnswer {W : Type 0} (b : Backend W) (s s' : Service W)
    : Outcome (Option ProxyMatch) → HttpAnswer → Type 0 where
  unmatched : IsAnswer b s s' (ok none) not_found
  unread : IsAnswer b s s' (err uri_malformed) (failed 502 uri_malformed)
  forwarded :
      (m : ProxyMatch) (host : ℕ)
      → IsPermitted b m s s' host
      → IsAnswer b s s' (ok (some m)) (web host (path_of m))
  refused :
      (m : ProxyMatch) (status : ℕ) (e : Error)
      → IsRefused b s m status e
      → IsAnswer b s s' (ok (some m)) (failed status e)

module _ {W : Type 0} (b : Backend W) (decode : Text → Option Text) (url : Url)
    (header : AuthHeader) where
  http_served : Outcome (Option (ℕ × Text)) × Service W → Outcome HttpAnswer × Service W
  unfolding recover after
  http_served r =
      recover (after r (λ target. pure (http_answer target))) λ e. pure (failed (status_of e) e)

  upgrade_served : Outcome (Option (ℕ × Text)) × Service W → Outcome UpgradeAnswer × Service W
  unfolding recover after
  upgrade_served r = recover (after r (λ target. pure (upgrade_answer target))) λ e. pure destroyed

  -- The reading of the URL throws only where a part cannot be decoded, and changes nothing.
  Reading : Service W → Outcome (Option ProxyMatch) × Service W → Type 0
  Reading s r = (r ≡ (err uri_malformed, s)) ⊎ ((o : Option ProxyMatch) × (r ≡ (ok o, s)))

  standard_read :
      (route : Option (Text × ℕ × Text)) (s : Service W)
      → Reading s (standard_match decode url header route s)
  unfolding standard_match after Reading
  standard_read none s = inr (none, refl)
  standard_read (some (key, port, path)) s = elim (Option-cases (decode key)) [
    | inl e ↦ rw e (inl refl)
    | inr (id, e) ↦ rw e (inr (_, refl))
  ]

  extract_read :
      (route : Option (Text × ℕ × Text)) (s : Service W)
      → Reading s (extract_from decode url header route s)
  unfolding extract_from after Reading
  extract_read none s = standard_read _ s
  extract_read (some (key, port, path)) s = elim (Option-cases (decode key)) [
    | inl e ↦ rw e (inl refl)
    | inr (id, e) ↦ rw e (inr (_, refl))
  ]

  Answered : Service W → Outcome (Option ProxyMatch) → Outcome HttpAnswer × Service W → Type 0
  Answered s read r =
      (a : HttpAnswer) × (s' : Service W) × (r ≡ (ok a, s')) × IsAnswer b s s' read a

  -- The answer to a match, by what its check came to.
  checked :
      (m : ProxyMatch) (s : Service W) (v : Outcome (RuntimeEntity × ℕ) × Service W)
      → ((target : RuntimeEntity × ℕ) (s' : Service W)
          → v ≡ (ok target, s')
          → IsPermitted b m s s' target.1)
      → ((e : Error) (s' : Service W) → v ≡ (err e, s') → IsRefused b s m (status_of e) e)
      → Answered s
          (ok (some m))
          (http_served (after v (λ target. pure (some (target.1, path_of m)))))
  unfolding after http_served recover Answered
  checked m s (ok target, s') h k =
      (web target.1 (path_of m), s', refl, forwarded m target.1 (h target s' refl))
  checked m s (err e, s') h k = (failed (status_of e) e, s', refl, refused m _ e (k e s' refl))

  forward-Answered :
      (o : Option ProxyMatch) (s : Service W)
      → Answered s (ok o) (http_served (forward decode b o s))
  unfolding forward http_served after Answered IsPermitted
  forward-Answered none s = (not_found, s, refl, unmatched)
  forward-Answered (some (signed token port path)) s =
      checked (signed token port path) s (validate_proxy_access_by_signed_token b token port s)
        (λ target s' h. (target.0, signed_token-IsFollowed b token port s s' target.0 target.1 h))
        (λ e s' h. link-IsRefused b token path port s s' e h)
  forward-Answered (some (standard id port path token)) s =
      checked (standard id port path token) s (validate_proxy_access_by_sandbox id port token s)
        (λ target s' h.
          (target.0, ((validate_proxy_access_iff id port token s target.0 target.1 s').0 h).0))
        (λ e s' h. sandbox-IsRefused b id path port token s s' e h)

  same_target :
      (host : ℕ) (path : Text) (r : Outcome (Option (ℕ × Text)) × Service W) (s' : Service W)
      → (upgrade_served r ≡ (ok (ws host path), s')) ↔ (http_served r ≡ (ok (web host path), s'))
  unfolding http_served upgrade_served
  same_target host path (ok none, s) s' = (
    λ h. absurd (let z : ◌≡◌ {A = UpgradeAnswer} destroyed (ws host path) = (ok_parts h).0 in cc),
    λ h. absurd (let z : ◌≡◌ {A = HttpAnswer} not_found (web host path) = (ok_parts h).0 in cc),
  )
  same_target host path (ok (some (h, p)), s) s' = (
    λ e.
        let (answer, same) = ok_parts e in
        let a : h ≡ host = cc in let c : p ≡ path = cc in rw (a, c, same) refl,
    λ e.
        let (answer, same) = ok_parts e in
        let a : h ≡ host = cc in let c : p ≡ path = cc in rw (a, c, same) refl,
  )
  same_target host path (err e, s) s' = (
    λ h. absurd (let z : ◌≡◌ {A = UpgradeAnswer} destroyed (ws host path) = (ok_parts h).0 in cc),
    λ h. absurd (
        let z : ◌≡◌ {A = HttpAnswer} (failed (status_of e) e) (web host path) = (ok_parts h).0 in
        cc),
  )

  -- The handler of `/proxy` always answers, by what `extract` reads of the URL: that nothing is found
  -- where it finds no match, and 502 where it throws, which it does only with the exception for a
  -- part that cannot be decoded. A match that its check permits is forwarded to the port of the host
  -- that the check gave, with the path of the match. A match is refused with 404 only if the sandbox
  -- is not there, the port is not bound, or the link has no record or one that has expired, with 401
  -- only if the sandbox does not admit the token, and with 502 only if the text can be no sandbox id.
  pub serve_http-IsAnswer :
      (s : Service W)
      → (a : HttpAnswer) × (s' : Service W) × (serve_http decode b url header s ≡ (ok a, s'))
        × IsAnswer b s s' (extract decode url header s).0 a
  unfolding serve_http handle_http http_served handle extract after recover Answered Reading
  serve_http-IsAnswer s = elim (extract_read (signed_route (split b'/' url.pathname)) s) [
    | inl e ↦ rw e (failed 502 uri_malformed, s, refl, unread)
    | inr (o, e) ↦ rw e (forward-Answered o s)
  ]

  -- The upgrade of a connection goes to a port of the host with a path, and leaves a state,
  -- exactly if a request for the same URL with the same header would.
  pub serve_upgrade_iff :
      (host : ℕ) (path : Text) (s s' : Service W)
      → (serve_upgrade decode b url header s ≡ (ok (ws host path), s'))
        ↔ (serve_http decode b url header s ≡ (ok (web host path), s'))
  unfolding serve_http serve_upgrade handle_http handle_upgrade http_served upgrade_served
  serve_upgrade_iff host path s s' = same_target host path (handle decode b url header s) s'
