-- ===== src/Proxy/Serving.antt =====
-- apps/cloud-api/src/main.ts and proxy.service.ts: the answers of the proxy to requests and to
-- upgrades of connections, where no check refuses them and where one does.
use microsanbox_cloud.Prelude.{
  ℕ, Bool, List, [], ◌∷◌, ◌++◌, Option, none, some, Text, if◌then◌else◌,
}
use microsanbox_cloud.Effects.{
  Error, pure, ◌>>=◌, catch, sandbox_not_found, missing_preview_token, preview_token_not_found,
  port_not_exposed,
}
use microsanbox_cloud.Guards.{AuthHeader}
use microsanbox_cloud.Control.Types.{Backend}
use microsanbox_cloud.Control.Monad.{M}
use microsanbox_cloud.Proxy.{Url, handle}

-- `web` and `ws` hand the request over to the port of the host, under the path of the match.
pub data HttpAnswer : Type 0 where
  web : (host_port : ℕ) (path : Text) → HttpAnswer
  not_found : HttpAnswer
  failed : (status : ℕ) (e : Error) → HttpAnswer

pub data UpgradeAnswer : Type 0 where
  ws : (host_port : ℕ) (path : Text) → UpgradeAnswer
  destroyed : UpgradeAnswer

-- `error.status` of the exceptions that the checks of the proxy throw, or 502 for an error
-- that has none.
unfoldable pub status_of : Error → ℕ
status_of (sandbox_not_found value) = 404
status_of preview_token_not_found = 404
status_of (port_not_exposed port sandbox_id) = 404
status_of missing_preview_token = 401
status_of _ = 502

abbrev pub http_answer : Option (ℕ × Text) → HttpAnswer
http_answer none = not_found
http_answer (some (host_port, path)) = web host_port path

abbrev pub upgrade_answer : Option (ℕ × Text) → UpgradeAnswer
upgrade_answer none = destroyed
upgrade_answer (some (host_port, path)) = ws host_port path

module _ (decode : Text → Option Text) {W : Type 0} (b : Backend W) where
  unfoldable pub handle_http : Url → AuthHeader → M W HttpAnswer
  handle_http url header = do target ← handle decode b url header; pure (http_answer target)

  unfoldable pub handle_upgrade : Url → AuthHeader → M W UpgradeAnswer
  handle_upgrade url header = do target ← handle decode b url header; pure (upgrade_answer target)

  -- The handler of `/proxy`: the exception becomes the answer.
  unfoldable pub serve_http : Url → AuthHeader → M W HttpAnswer
  unfolding handle_http status_of
  serve_http url header = catch (handle_http url header) λ e. pure (failed (status_of e) e)

  -- The listener of `upgrade`: the exception destroys the socket.
  unfoldable pub serve_upgrade : Url → AuthHeader → M W UpgradeAnswer
  unfolding handle_upgrade
  serve_upgrade url header = catch (handle_upgrade url header) λ e. pure destroyed

-- What an error of the forwarding is given to.
pub data Responder : Type 0 where
  server_response : (headers_sent : Bool) → Responder
  socket : Responder
  other : Responder

pub data ResponderCall : Type 0 where
  write_head : (status : ℕ) → ResponderCall
  end_with : (status : ℕ) → ResponderCall
  destroy : ResponderCall

-- The listener of `error` of the proxy server.
unfoldable pub on_error : Responder → List ResponderCall
on_error (server_response headers_sent) =
    (if headers_sent then [] else write_head 502 ∷ []) ++ end_with 502 ∷ []
on_error socket = destroy ∷ []
on_error other = []
