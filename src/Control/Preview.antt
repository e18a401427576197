-- ===== src/Control/Preview.antt =====
-- Preview links and the access that the proxy asks for.
use microsanbox_cloud.Prelude.{
  ℕ, Bool, ◌||◌, Option, none, some, Text, text_eq, ◌==◌, if◌then◌else◌, find?, truthy, ◌&&◌, ◌∷◌,
  ◌++◌, codes,
}
use microsanbox_cloud.Text.{strip_end}
use microsanbox_cloud.Text.Decimal.{decimal}
use microsanbox_cloud.Text.Encode.{encode_uri_component}
use microsanbox_cloud.Effects.{
  when◌then◌else◌, Eff, pure, throw, ◌>>=◌, ◌>>◌, guard, or_throw, port_not_exposed, uri_malformed,
  preview_token_not_found, invalid_preview_token, missing_preview_token,
}
use microsanbox_cloud.Database.{RuntimeEntity, RuntimePortBindingRecord, SignedPreviewTokenEntity}
use microsanbox_cloud.Config.{AppConfig}
use microsanbox_cloud.Registry.Tokens.{
  create_signed_preview_token, get_signed_preview_token, expire_signed_preview_token,
  has_signed_preview_token_expired,
}
use microsanbox_cloud.Control.Types.{Backend}
use microsanbox_cloud.Control.Monad.{M, on_db, get_value, modify_db}
use microsanbox_cloud.Control.Lifecycle.{require_runtime, require_running_runtime}

-- `${key}/ports/${port}`
abbrev pub port_path : Text → Text → Text
port_path key port = key ++ b'/' ∷ (codes "ports" ++ b'/' ∷ port)

-- The path of `getPreviewUrl`, and that of `getSignedPreviewUrl`.
abbrev pub standard_path : Text → Text → Text
standard_path key port = b'/' ∷ (codes "proxy" ++ b'/' ∷ port_path key port)

abbrev pub signed_path : Text → Text → Text
signed_path key port =
    b'/' ∷ (codes "proxy" ++ b'/' ∷ (codes "signed" ++ b'/' ∷ port_path key port))

-- The answers of the two.
pub record PreviewUrl : Type 0 where
  pub sandbox_id : Text
  pub port : ℕ
  pub url : Text
  pub token : Text
  pub header_name : Text
  pub expires_at : Option ℕ

pub record SignedPreviewUrl : Type 0 where
  pub sandbox_id : Text
  pub port : ℕ
  pub token : Text
  pub url : Text
  pub expires_at : ℕ

-- `this.config.proxyBaseUrl.replace(/\/+$/g, '')`
unfoldable pub base_url : AppConfig → Text
base_url config = strip_end (λ c. c == b'/') config.proxy_base_url

unfoldable pub find_binding : {S : Type 0} → RuntimeEntity → ℕ → Eff S RuntimePortBindingRecord
find_binding runtime port =
    or_throw (find? (λ p. p.container_port == port) runtime.port_bindings)
      (port_not_exposed port runtime.sandbox_id)

-- The lengths are compared, and then the bytes in constant time.
unfoldable pub tokens_equal : Text → Text → Bool
tokens_equal actual candidate = text_eq actual candidate

unfoldable pub resolve_proxy_target : {S : Type 0} → RuntimeEntity → ℕ → Eff S (RuntimeEntity × ℕ)
unfolding find_binding
resolve_proxy_target runtime port = do
  binding ← find_binding runtime port
  pure (runtime, binding.host_port)

-- `runtime.public || token && tokensEqual(authToken, token)`
unfoldable pub may_access : RuntimeEntity → Option Text → Bool
unfolding tokens_equal
may_access runtime none = runtime.is_public
may_access runtime (some token) =
    runtime.is_public || truthy token && tokens_equal runtime.auth_token token

module _ {W : Type 0} where
  unfoldable pub validate_preview_token : Text → Text → M W Text
  unfolding require_runtime tokens_equal
  validate_preview_token value token = do
    runtime ← require_runtime value
    guard (tokens_equal runtime.auth_token token) invalid_preview_token
    pure runtime.sandbox_id

  unfoldable pub get_preview_public_state : Text → M W (Text × Bool)
  unfolding require_runtime
  get_preview_public_state value = do
    runtime ← require_runtime value
    pure (runtime.sandbox_id, runtime.is_public)

  unfoldable pub validate_proxy_access_by_sandbox : Text → ℕ → Option Text → M W (RuntimeEntity × ℕ)
  unfolding require_runtime may_access resolve_proxy_target
  validate_proxy_access_by_sandbox value port token = do
    runtime ← require_runtime value
    guard (may_access runtime token) missing_preview_token
    resolve_proxy_target runtime port

  -- The sandbox of the token must be the one that is named.
  unfoldable pub expire_signed_preview_url : Text → ℕ → Text → M W Text
  unfolding require_runtime
  expire_signed_preview_url value port token = do
    runtime ← require_runtime value
    found ← on_db (get_signed_preview_token token port)
    record' ← or_throw found preview_token_not_found
    guard (text_eq record'.sandbox_id runtime.sandbox_id) preview_token_not_found
    modify_db (expire_signed_preview_token token port)
    pure runtime.sandbox_id

module _ {W : Type 0} (b : Backend W) where
  -- An expired record is deleted before the refusal.
  unfoldable pub resolve_found : Text → ℕ → Option SignedPreviewTokenEntity → M W Text
  resolve_found token port none = throw preview_token_not_found
  resolve_found token port (some found) = do
    time ← get_value b.now
    (when has_signed_preview_token_expired time found
        then (modify_db (expire_signed_preview_token token port) >> throw preview_token_not_found)
        else pure found.sandbox_id)

  -- The answer is the sandbox id.
  unfoldable pub resolve_signed_preview_token : Text → ℕ → M W Text
  unfolding resolve_found
  resolve_signed_preview_token token port = do
    found ← on_db (get_signed_preview_token token port)
    resolve_found token port found

  unfoldable pub validate_proxy_access_by_signed_token : Text → ℕ → M W (RuntimeEntity × ℕ)
  unfolding resolve_signed_preview_token require_runtime resolve_proxy_target
  validate_proxy_access_by_signed_token token port = do
    sandbox_id ← resolve_signed_preview_token token port
    runtime ← require_runtime sandbox_id
    resolve_proxy_target runtime port

  unfoldable pub ensure_previewable : Text → ℕ → M W RuntimeEntity
  unfolding require_running_runtime find_binding
  ensure_previewable value port = do
    runtime ← require_running_runtime b value
    find_binding runtime port
    pure runtime

  unfoldable pub get_preview_url : AppConfig → Text → ℕ → M W PreviewUrl
  unfolding ensure_previewable base_url
  get_preview_url config value port = do
    runtime ← ensure_previewable value port
    key ← or_throw (encode_uri_component runtime.sandbox_id) uri_malformed
    pure (record {
      sandbox_id = runtime.sandbox_id;
      port = port;
      url = base_url config ++ standard_path key (decimal port);
      token = runtime.auth_token;
      header_name = codes "x-microsandbox-preview-token";
      expires_at = none;
    })

  unfoldable pub get_signed_preview_url : AppConfig → Text → ℕ → M W SignedPreviewUrl
  unfolding ensure_previewable base_url
  get_signed_preview_url config value port = do
    runtime ← ensure_previewable value port
    drawn ← get_value (b.draw 24)
    time ← get_value b.now
    row ← on_db (
        create_signed_preview_token time drawn runtime.sandbox_id port
          config.connection_ttl_seconds)
    key ← or_throw (encode_uri_component row.token) uri_malformed
    pure (record {
      sandbox_id = runtime.sandbox_id;
      port = port;
      token = row.token;
      url = base_url config ++ signed_path key (decimal port);
      expires_at = row.expires_at;
    })
