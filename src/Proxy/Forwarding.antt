-- ===== src/Proxy/Forwarding.antt =====
-- What the proxy forwards.
use microsanbox_cloud.Prelude.{◌≡◌, refl, sym, subst, ℕ, ◌∙◌, Option, none, some, Text}
use microsanbox_cloud.Text.{split}
use microsanbox_cloud.Effects.{ok, or_throw, after-eq-ok, ok_parts, uri_malformed}
use microsanbox_cloud.Database.{RuntimeEntity}
use microsanbox_cloud.Guards.{AuthHeader}
use microsanbox_cloud.Control.Types.{Service, Backend}
use microsanbox_cloud.Control.Preview.{
  validate_proxy_access_by_sandbox, validate_proxy_access_by_signed_token,
}
use microsanbox_cloud.Control.Lookup.{or_throw-eq-ok}
use microsanbox_cloud.Control.Access.{IsAdmitted, validate_proxy_access_iff}
use microsanbox_cloud.Control.Links.{IsFollowed, signed_token-IsFollowed}
use microsanbox_cloud.Proxy.{
  Url, ProxyMatch, signed, standard, standard_match, signed_route, extract_from, extract, forward,
  handle,
}

-- The check of a match, which gave this port of the host.
unfoldable pub IsPermitted :
    {W : Type 0} → Backend W → ProxyMatch → Service W → Service W → ℕ → Type 0
IsPermitted b (signed token port path) s s' host =
    (r : RuntimeEntity) × IsFollowed b token port s s' r host
IsPermitted b (standard id port path token) s s' host =
    (r : RuntimeEntity) × IsAdmitted id port token s r host

module _ (decode : Text → Option Text) {W : Type 0} (b : Backend W) (url : Url)
    (header : AuthHeader) where
  standard_kept :
      (route : Option (Text × ℕ × Text)) (o : Option ProxyMatch) (s s' : Service W)
      → standard_match decode url header route s ≡ (ok o, s')
      → s ≡ s'
  unfolding standard_match
  standard_kept none o s s' h = (ok_parts h).1
  standard_kept (some (key, port, path)) o s s' h =
      let (id, s1, m, h1) = after-eq-ok (or_throw (decode key) uri_malformed s) _ h in
      (or_throw-eq-ok (decode key) _ m).1 ∙ (ok_parts h1).1

  extract_kept :
      (route : Option (Text × ℕ × Text)) (o : Option ProxyMatch) (s s' : Service W)
      → extract_from decode url header route s ≡ (ok o, s')
      → s ≡ s'
  unfolding extract_from
  extract_kept none o s s' h = standard_kept _ o s s' h
  extract_kept (some (key, port, path)) o s s' h =
      let (id, s1, m, h1) = after-eq-ok (or_throw (decode key) uri_malformed s) _ h in
      (or_throw-eq-ok (decode key) _ m).1 ∙ (ok_parts h1).1

  permitted :
      (o : Option ProxyMatch) (host : ℕ) (path : Text) (s s' : Service W)
      → forward decode b o s ≡ (ok (some (host, path)), s')
      → (found : ProxyMatch) × (o ≡ some found) × IsPermitted b found s s' host
  unfolding forward IsPermitted
  permitted none host path s s' h =
      absurd (let z : ◌≡◌ {A = Option (ℕ × Text)} none (some (host, path)) = (ok_parts h).0 in cc)
  permitted (some (signed token port p)) host path s s' h =
      let (target, s1, m, h1) =
        after-eq-ok (validate_proxy_access_by_signed_token b token port s) _ h in
      let (answer, same) = ok_parts h1 in
      let hosts : target.1 ≡ host = cc in
      let followed = signed_token-IsFollowed b token port s s1 target.0 target.1 m in
      (
        signed token port p,
        refl,
        (
          target.0,
          subst (λ n. IsFollowed b token port s s' target.0 n) hosts
              (subst (λ t. IsFollowed b token port s t target.0 target.1) same followed),
        ),
      )
  permitted (some (standard id port p token)) host path s s' h =
      let (target, s1, m, h1) =
        after-eq-ok (validate_proxy_access_by_sandbox id port token s) _ h in
      let (answer, same) = ok_parts h1 in
      let hosts : target.1 ≡ host = cc in
      let admitted = ((validate_proxy_access_iff id port token s target.0 target.1 s1).0 m).0 in
      (
        standard id port p token,
        refl,
        (target.0, subst (λ n. IsAdmitted id port token s target.0 n) hosts admitted),
      )

  -- A request is forwarded only to the host port that the check of its match gave: for a signed
  -- link one that was followed, else one to which the sandbox and the token admit.
  pub handle-IsPermitted :
      (host : ℕ) (path : Text) (s s' : Service W)
      → handle decode b url header s ≡ (ok (some (host, path)), s')
      → (found : ProxyMatch) × (extract decode url header s ≡ (ok (some found), s))
        × IsPermitted b found s s' host
  unfolding handle extract
  handle-IsPermitted host path s s' h =
      let (o, s1, m, h1) = after-eq-ok (extract decode url header s) _ h in
      let same = kept o s s1 m in
      let m' : extract decode url header s ≡ (ok o, s) =
        subst (λ t. extract decode url header s ≡ (ok o, t)) (sym same) m in
      let h2 : forward decode b o s ≡ (ok (some (host, path)), s') =
        subst (λ t. forward decode b o t ≡ (ok (some (host, path)), s')) (sym same) h1 in
      let (found, e, allowed) = permitted o host path s s' h2 in
      (found, subst (λ x. extract decode url header s ≡ (ok x, s)) e m', allowed)
    where
      kept :
          (o : Option ProxyMatch) (s s1 : Service W)
          → extract decode url header s ≡ (ok o, s1)
          → s ≡ s1
      kept o s s1 m = extract_kept (signed_route (split b'/' url.pathname)) o s s1 m
