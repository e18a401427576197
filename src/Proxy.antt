-- ===== src/Proxy.antt =====
-- apps/cloud-api/src/proxy/proxy.service.ts: which request goes to which port of the host. The
-- parts of the parsed URL and `decodeURIComponent` are parameters.
pub mod Routes
pub mod Forwarding
pub mod Serving
pub mod Refusals
pub mod Answers
pub mod Following
pub mod Expiring
mod Tests
use microsanbox_cloud.Prelude.{
  ℕ, ◌+◌, ◌*◌, ◌-◌, Bool, true, false, ◌&&◌, List, [], ◌∷◌, ◌++◌, Option, none, some, Text, codes,
  text_eq, truthy, leb, if◌then◌else◌,
}
use microsanbox_cloud.Text.{trim, split, join}
use microsanbox_cloud.Text.Decimal.{all_digits, number_from}
use microsanbox_cloud.Effects.{Outcome, ok, err, Eff, pure, ◌>>=◌, or_throw, after, uri_malformed}
use microsanbox_cloud.Database.{RuntimeEntity}
use microsanbox_cloud.Guards.{AuthHeader, absent, single, several}
use microsanbox_cloud.Control.Types.{Service, Backend}
use microsanbox_cloud.Control.Monad.{M}
use microsanbox_cloud.Control.Spec.{and_then, nonempty}
use microsanbox_cloud.Control.Preview.{
  validate_proxy_access_by_sandbox, validate_proxy_access_by_signed_token,
}

-- The parts of `new URL(rawUrl, 'http://localhost')` that the proxy reads.
pub record Url : Type 0 where
  pub pathname : Text
  pub search : Text
  pub token : Option Text

pub data ProxyMatch : Type 0 where
  signed : (token : Text) (port : ℕ) (path : Text) → ProxyMatch
  standard : (sandbox_id : Text) (port : ℕ) (path : Text) (token : Option Text) → ProxyMatch

-- `(\/.*)?`, or `/` where it is absent.
unfoldable pub rest_path : List Text → Text
rest_path [] = codes "/"
rest_path (part ∷ parts) = codes "/" ++ join (codes "/") (part ∷ parts)

-- `([^/]+)\/ports\/(\d+)(\/.*)?$` on the parts between the slashes.
unfoldable pub port_route : List Text → Option (Text × ℕ × Text)
unfolding all_digits number_from rest_path
port_route (key ∷ ports ∷ port ∷ rest) =
    if truthy key && text_eq ports (codes "ports") && truthy port && all_digits port
    then some (key, number_from 0 port, rest_path rest)
    else none
port_route _ = none

-- The parts after `/proxy/signed/`.
unfoldable pub signed_route : List Text → Option (Text × ℕ × Text)
unfolding port_route
signed_route (start ∷ proxy ∷ kind ∷ parts) =
    if text_eq start [] && text_eq proxy (codes "proxy") && text_eq kind (codes "signed")
    then port_route parts
    else none
signed_route _ = none

-- The parts after `/proxy/`.
unfoldable pub standard_route : List Text → Option (Text × ℕ × Text)
unfolding port_route
standard_route (start ∷ proxy ∷ parts) =
    if text_eq start [] && text_eq proxy (codes "proxy") then port_route parts else none
standard_route _ = none

-- The header goes before the query; a blank one counts as absent.
unfoldable pub read_preview_token : AuthHeader → Option Text → Option Text
read_preview_token absent query = and_then query (λ t. nonempty (trim t))
read_preview_token (single t) query =
    if truthy (trim t) then some (trim t) else and_then query (λ q. nonempty (trim q))
read_preview_token (several []) query = and_then query (λ t. nonempty (trim t))
read_preview_token (several (t ∷ ts)) query =
    if truthy (trim t) then some (trim t) else and_then query (λ q. nonempty (trim q))

module _ (decode : Text → Option Text) where
  unfoldable pub standard_match :
      {S : Type 0} → Url → AuthHeader → Option (Text × ℕ × Text) → Eff S (Option ProxyMatch)
  unfolding read_preview_token
  standard_match url header none = pure none
  standard_match url header (some (key, port, path)) = do
    sandbox_id ← or_throw (decode key) uri_malformed
    pure
        (some (standard sandbox_id port (path ++ url.search) (read_preview_token header url.token)))

  unfoldable pub extract_from :
      {S : Type 0} → Url → AuthHeader → Option (Text × ℕ × Text) → Eff S (Option ProxyMatch)
  unfolding standard_match standard_route
  extract_from url header none =
      standard_match url header (standard_route (split b'/' url.pathname))
  extract_from url header (some (key, port, path)) = do
    token ← or_throw (decode key) uri_malformed
    pure (some (signed token port (path ++ url.search)))

  unfoldable pub extract : {S : Type 0} → Url → AuthHeader → Eff S (Option ProxyMatch)
  unfolding extract_from signed_route
  extract url header = extract_from url header (signed_route (split b'/' url.pathname))

  module _ {W : Type 0} (b : Backend W) where
    -- The port of the host and the path to which the request goes.
    unfoldable pub forward : Option ProxyMatch → M W (Option (ℕ × Text))
    unfolding validate_proxy_access_by_signed_token validate_proxy_access_by_sandbox
    forward none = pure none
    forward (some (signed token port path)) = do
      target ← validate_proxy_access_by_signed_token b token port
      pure (some (target.1, path))
    forward (some (standard sandbox_id port path token)) = do
      target ← validate_proxy_access_by_sandbox sandbox_id port token
      pure (some (target.1, path))

    -- `handleHttp` and `handleUpgrade`; none is the answer `Not found`.
    unfoldable pub handle : Url → AuthHeader → M W (Option (ℕ × Text))
    unfolding extract forward
    handle url header = do found ← extract url header; forward found
