-- ===== src/Proxy/Expiring.antt =====
-- The signed links that the control service makes, given back to the proxy.
use microsanbox_cloud.Prelude.{
  ◌≡◌, refl, sym, subst, ap, ◌∙◌, ℕ, ◌<◌, true, false, ◌++◌, Option, some, Text, codes, arith,
  find?, leb, ◌==◌, truthy,
}
use microsanbox_cloud.Text.Decimal.{decimal, decimal-number}
use microsanbox_cloud.Text.Encode.{IsUnreserved, encode_uri_component, encode-IsUnreserved}
use microsanbox_cloud.Identity.{normalize_sandbox_id}
use microsanbox_cloud.Effects.{
  ok, pure, ◌>>=◌, or_throw, uri_malformed, after, after-eq-ok, ok_parts, when◌then◌else◌,
}
use microsanbox_cloud.Database.{RuntimeEntity, RuntimePortBindingRecord, SignedPreviewTokenEntity}
use microsanbox_cloud.Config.{AppConfig}
use microsanbox_cloud.Guards.{absent}
use microsanbox_cloud.Registry.Tokens.{
  is_token, create_signed_preview_token, create_signed_preview_token-eq-ok,
  get_signed_preview_token, has_signed_preview_token_expired,
}
use microsanbox_cloud.Control.Types.{Service, Backend}
use microsanbox_cloud.Control.Spec.{and_then}
use microsanbox_cloud.Control.Monad.{on_db}
use microsanbox_cloud.Control.Lookup.{lookup, is_called, or_throw-eq-ok, require_runtime_of_lookup}
use microsanbox_cloud.Control.Previewable.{ensure_previewable_of_lookup}
use microsanbox_cloud.Control.Preview.{
  SignedPreviewUrl, base_url, signed_path, get_signed_preview_url, ensure_previewable, find_binding,
  resolve_proxy_target, resolve_found, resolve_signed_preview_token,
  validate_proxy_access_by_signed_token,
}
use microsanbox_cloud.Proxy.{Url, forward, handle}
use microsanbox_cloud.Proxy.Routes.{extract-signed_path}
use microsanbox_cloud.Proxy.Following.{append_cancel, made-IsRoute, IsBound}

module _ (decode : Text → Option Text) (decoded : (t : Text) → IsUnreserved t → decode t ≡ some t)
    {W : Type 0} (config : AppConfig) (b : Backend W) (url : Url) (port : ℕ) where
  signed_handled :
      (row : SignedPreviewTokenEntity) (r : RuntimeEntity) (t : Service W)
      (binding : RuntimePortBindingRecord)
      → IsUnreserved row.token
      → truthy row.token ≡ true
      → find? (is_token row.token port) t.db.preview_tokens ≡ some row
      → (b.now t.world).0 < row.expires_at
      → lookup row.sandbox_id t.db ≡ some r
      → find? (λ p. p.container_port == port) r.port_bindings ≡ some binding
      → url.pathname ≡ signed_path row.token (decimal port)
      → handle decode b url absent t ≡ (
        ok (some (binding.host_port, codes "/" ++ url.search)),
        record t { world = (b.now t.world).1 },
      )
  unfolding handle forward after validate_proxy_access_by_signed_token resolve_signed_preview_token
      get_signed_preview_token resolve_found has_signed_preview_token_expired when◌then◌else◌
      resolve_proxy_target find_binding
  signed_handled row r t binding plain given stored early found bound path =
      let extracted =
        extract-signed_path row.token (decimal port) (made-IsRoute row.token port plain given)
          decode url absent row.token t (decoded row.token plain) path in
      let alive : leb row.expires_at (b.now t.world).0 ≡ false = ground (arith, early) in
      rw
        (
          extracted,
          decimal-number port,
          stored,
          alive,
          require_runtime_of_lookup row.sandbox_id (record t { world = (b.now t.world).1 }) r found,
          bound,
        )
        refl

  -- The row and the key that a signed link was made from.
  record IsMade (sandbox_id : Text) (t t1 : Service W) (link : SignedPreviewUrl) : Type 0 where
    row : SignedPreviewTokenEntity
    key : Text
    token : row.token ≡ link.token
    sandbox : row.sandbox_id ≡ sandbox_id
    expiry : row.expires_at ≡ link.expires_at
    encoded : encode_uri_component row.token ≡ some key
    path : base_url config ++ signed_path key (decimal port) ≡ link.url
    stored : find? (is_token row.token port) t1.db.preview_tokens ≡ some row
    runtimes : t.db.runtimes ≡ t1.db.runtimes

  made :
      (time : ℕ) (drawn sandbox_id : Text) (t t1 : Service W) (link : SignedPreviewUrl)
      → (on_db
              (create_signed_preview_token time drawn sandbox_id port config.connection_ttl_seconds)
            >>= λ row. or_throw (encode_uri_component row.token) uri_malformed >>= λ key.
                pure (record {
                  sandbox_id = sandbox_id;
                  port = port;
                  token = row.token;
                  url = base_url config ++ signed_path key (decimal port);
                  expires_at = row.expires_at;
                }))
          t
        ≡ (ok link, t1)
      → IsMade sandbox_id t t1 link
  made time drawn sandbox_id t t1 link h =
      let (row, t2, created, h1) = after-eq-ok _ _ h in
      let (key, t3, e, h2) = after-eq-ok _ _ h1 in
      let (encoded, same) = or_throw-eq-ok _ _ e in
      let (answer, same2) = ok_parts h2 in
      let (fresh, stored, runtimes) =
        create_signed_preview_token-eq-ok time drawn sandbox_id port config.connection_ttl_seconds
          t.db t2.db row (ap (λ p. (p.0, p.1.db)) created) in
      let unchanged : t2.db ≡ t1.db = ap (λ x. x.db) (same ∙ same2) in
      record {
        row = row;
        key = key;
        token = ap (λ l. l.token) answer;
        sandbox = ap (λ x. x.sandbox_id) (sym fresh);
        expiry = ap (λ l. l.expires_at) answer;
        encoded = encoded;
        path = ap (λ l. l.url) answer;
        stored =
            subst (λ d. find? (is_token row.token port) d.preview_tokens ≡ some row) unchanged
              (subst (λ x. find? (is_token x port) t2.db.preview_tokens ≡ some row)
                (ap (λ x. x.token) fresh) stored);
        runtimes = runtimes ∙ ap (λ d. d.runtimes) unchanged;
      }

  module _ (value : Text) (o : RuntimeEntity) (s s1 : Service W)
      (named : lookup value s.db ≡ some o) (own : lookup o.sandbox_id s.db ≡ some o) where
    moved_on :
        (t t1 : Service W) (r : RuntimeEntity)
        → t.db.runtimes ≡ t1.db.runtimes
        → lookup o.sandbox_id t.db ≡ some r
        → lookup o.sandbox_id t1.db ≡ some r
    moved_on t t1 r same h =
        subst
          (λ rows.
            and_then (normalize_sandbox_id o.sandbox_id) (λ key. find? (is_called key) rows)
            ≡ some r)
          same h

    -- Where `getSignedPreviewUrl` returns a link, the proxy forwards a request for its path under
    -- the base URL, without any token, to the host port that the sandbox has for the port, at each
    -- time before the link expires. The sandbox id finds its row, the drawn token is not empty and
    -- has nothing to encode, and decoding leaves such a text as it is.
    pub get_signed_preview_url-handle :
        (link : SignedPreviewUrl) (w : W)
        → IsUnreserved link.token
        → truthy link.token ≡ true
        → get_signed_preview_url b config value port s ≡ (ok link, s1)
        → base_url config ++ url.pathname ≡ link.url
        → (b.now w).0 < link.expires_at
        → (host : ℕ) × IsBound s1 o.sandbox_id port host
          × (handle decode b url absent (record s1 { world = w })
              ≡ (ok (some (host, codes "/" ++ url.search)), record s1 { world = (b.now w).1 }))
    unfolding get_signed_preview_url after
    get_signed_preview_url-handle link w plain given h at_url early =
        let (r, s2, m, h1) = after-eq-ok (ensure_previewable b value port s) _ h in
        let (moved, (binding, bound)) =
          ensure_previewable_of_lookup b value port s s2 o r named m in
        let drawn : Text × W = b.draw 24 s2.world in
        let time : ℕ × W = b.now drawn.1 in
        let is_made = made time.0 drawn.0 r.sandbox_id (record s2 { world = time.1 }) s1 link h1 in
        let plain_row : IsUnreserved is_made.row.token = rw is_made.token plain in
        let is_key : some is_made.row.token ≡ some is_made.key =
          sym (encode-IsUnreserved _ plain_row) ∙ is_made.encoded in
        let key_is : is_made.row.token ≡ is_made.key = cc in
        let path : url.pathname ≡ signed_path is_made.row.token (decimal port) =
          append_cancel (base_url config) _ _ (
            at_url
            ∙ sym is_made.path
            ∙ ap (λ k. base_url config ++ signed_path k (decimal port)) (sym key_is)) in
        let row : lookup o.sandbox_id s1.db ≡ some r =
          moved_on s2 s1 r is_made.runtimes (moved.named _ own) in
        (
          binding.host_port,
          record { row = r; found = row; binding = binding; bound = bound; target = refl },
          signed_handled is_made.row r (record s1 { world = w }) binding plain_row
              (rw is_made.token given) is_made.stored (rw is_made.expiry early)
              (rw (is_made.sandbox, moved.sandbox_id) row) bound path,
        )
