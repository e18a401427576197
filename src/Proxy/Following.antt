-- ===== src/Proxy/Following.antt =====
-- The links that the control service makes, given back to the proxy.
use microsanbox_cloud.Prelude.{
  ◌≡◌, refl, sym, subst, ap, ◌∙◌, ℕ, true, false, inr, List, [], ◌∷◌, ◌++◌, Option, some, Text,
  codes, arith, All, find?, ◌==◌, truthy, ◌≢◌,
}
use microsanbox_cloud.Text.{trim}
use microsanbox_cloud.Text.Decimal.{decimal, decimal-number, decimal-digits, decimal-truthy}
use microsanbox_cloud.Text.Encode.{
  encode_uri_component, IsUnreserved, is_unreserved, encode-IsUnreserved,
}
use microsanbox_cloud.Identity.{is_alnum, is_edge, is_foreign}
use microsanbox_cloud.Identity.Normal.{IsName, IsNative}
use microsanbox_cloud.Effects.{ok, after, after-eq-ok, ok_parts}
use microsanbox_cloud.Database.{RuntimeEntity, RuntimePortBindingRecord}
use microsanbox_cloud.Config.{AppConfig}
use microsanbox_cloud.Guards.{single}
use microsanbox_cloud.Control.Types.{Service, Backend}
use microsanbox_cloud.Control.Lookup.{lookup, or_throw-eq-ok}
use microsanbox_cloud.Control.Access.{validate_proxy_access_iff}
use microsanbox_cloud.Control.Previewable.{ensure_previewable_of_lookup}
use microsanbox_cloud.Control.Preview.{
  PreviewUrl, base_url, standard_path, get_preview_url, ensure_previewable,
}
use microsanbox_cloud.Proxy.{Url, read_preview_token, forward, handle}
use microsanbox_cloud.Proxy.Routes.{IsRoute, extract-standard_path}

pub append_cancel : {A : Type 0} (xs ys zs : List A) → xs ++ ys ≡ xs ++ zs → ys ≡ zs
append_cancel [] ys zs h = h
append_cancel (x ∷ xs) ys zs h = append_cancel xs ys zs cc

native-IsUnreserved : (s : Text) → All IsNative s → IsUnreserved s
unfolding is_foreign is_alnum is_edge is_unreserved
native-IsUnreserved [] h = tt
native-IsUnreserved (c ∷ s) (x, h) = (ground (arith, x), native-IsUnreserved s h)

unreserved_whole : (s : Text) → IsUnreserved s → All (λ d. (d == b'/') ≡ false) s
unfolding is_unreserved
unreserved_whole [] h = tt
unreserved_whole (c ∷ s) (x, h) = (ground (arith, x), unreserved_whole s h)

pub ne-nil-truthy : (s : Text) → s ≢ [] → truthy s ≡ true
ne-nil-truthy [] n = absurd (n refl)
ne-nil-truthy (c ∷ s) n = refl

pub made-IsRoute :
    (key : Text) (port : ℕ) → IsUnreserved key → truthy key ≡ true → IsRoute key (decimal port)
made-IsRoute key port plain given = record {
  key_given = given;
  port_given = decimal-truthy port;
  whole = unreserved_whole key plain;
  digits = decimal-digits port;
}

-- The sandbox of a link, and the binding of its port.
pub record IsBound {W : Type 0} (s : Service W) (id : Text) (port : ℕ) (host : ℕ) : Type 0 where
  pub row : RuntimeEntity
  pub found : lookup id s.db ≡ some row
  pub binding : RuntimePortBindingRecord
  pub bound : find? (λ p. p.container_port == port) row.port_bindings ≡ some binding
  pub target : binding.host_port ≡ host

module _ (decode : Text → Option Text) (decoded : (t : Text) → IsUnreserved t → decode t ≡ some t)
    {W : Type 0} (config : AppConfig) (b : Backend W) (url : Url) (port : ℕ) where
  standard_handled :
      (id : Text) (r : RuntimeEntity) (t : Service W) (binding : RuntimePortBindingRecord)
      → IsName id
      → lookup id t.db ≡ some r
      → truthy r.auth_token ≡ true
      → trim r.auth_token ≡ r.auth_token
      → find? (λ p. p.container_port == port) r.port_bindings ≡ some binding
      → url.pathname ≡ standard_path id (decimal port)
      → handle decode b url (single r.auth_token) t
        ≡ (ok (some (binding.host_port, codes "/" ++ url.search)), t)
  unfolding handle forward after
  standard_handled id r t binding name found given trimmed bound path =
      let plain = native-IsUnreserved id name.tidy.alphabet in
      let extracted =
        extract-standard_path id (decimal port)
          (made-IsRoute id port plain (ne-nil-truthy id name.nonempty)) decode url
          (single r.auth_token) id t (decoded id plain) path in
      let token : read_preview_token (single r.auth_token) url.token ≡ some r.auth_token =
        unfold read_preview_token in rw (trimmed, given) refl in
      let allowed =
        (validate_proxy_access_iff id port (some r.auth_token) t r binding.host_port t).1 (
          record { found = found; allowed = inr (refl, given); bound = (binding, bound, refl) },
          refl,
        ) in
      rw (extracted, decimal-number port, token, allowed) refl

  module _ (value : Text) (o : RuntimeEntity) (s s1 : Service W)
      (named : lookup value s.db ≡ some o) (own : lookup o.sandbox_id s.db ≡ some o) where
    -- Where `getPreviewUrl` returns a link, the proxy forwards a request for its path under the
    -- base URL, with its token in the header, to the host port that the sandbox has for the port,
    -- whatever has happened to the world since. The sandbox id is a normal name that finds its row,
    -- the token is not empty and has no blanks around it, and decoding leaves a text as it is that
    -- has nothing to encode.
    pub get_preview_url-handle :
        (link : PreviewUrl) (w : W)
        → IsName o.sandbox_id
        → truthy o.auth_token ≡ true
        → trim o.auth_token ≡ o.auth_token
        → get_preview_url b config value port s ≡ (ok link, s1)
        → base_url config ++ url.pathname ≡ link.url
        → (host : ℕ) × IsBound s1 o.sandbox_id port host
          × (handle decode b url (single link.token) (record s1 { world = w })
              ≡ (ok (some (host, codes "/" ++ url.search)), record s1 { world = w }))
    unfolding get_preview_url
    get_preview_url-handle link w name given trimmed h at_url =
        let (r, s2, m, h1) = after-eq-ok (ensure_previewable b value port s) _ h in
        let (moved, (binding, bound)) =
          ensure_previewable_of_lookup b value port s s2 o r named m in
        let (key, s3, e, h2) = after-eq-ok _ _ h1 in
        let (encoded, same) = or_throw-eq-ok _ _ e in
        let (answer, same2) = ok_parts h2 in
        let plain = native-IsUnreserved o.sandbox_id name.tidy.alphabet in
        let is_key : some o.sandbox_id ≡ some key =
          sym (encode-IsUnreserved _ plain)
          ∙ subst (λ i. encode_uri_component i ≡ some key) moved.sandbox_id encoded in
        let key_is : o.sandbox_id ≡ key = cc in
        let unchanged : s2 ≡ s1 = same ∙ same2 in
        let row = subst (λ t. lookup o.sandbox_id t.db ≡ some r) unchanged (moved.named _ own) in
        let path : url.pathname ≡ standard_path o.sandbox_id (decimal port) =
          append_cancel (base_url config) _ _ (
            at_url
            ∙ ap (λ l. l.url) (sym answer)
            ∙ ap (λ k. base_url config ++ standard_path k (decimal port)) (sym key_is)) in
        let handled =
          standard_handled o.sandbox_id r (record s1 { world = w }) binding name row
            (rw moved.auth_token given) (rw moved.auth_token trimmed) bound path in
        (
          binding.host_port,
          record { row = r; found = row; binding = binding; bound = bound; target = refl },
          subst
              (λ token.
                handle decode b url (single token) (record s1 { world = w })
                ≡ (ok (some (binding.host_port, codes "/" ++ url.search)), record s1 { world = w }))
              (ap (λ l. l.token) answer) handled,
        )
