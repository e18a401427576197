-- ===== src/Proxy/Routes.antt =====
-- The paths of the preview links.
use microsanbox_cloud.Prelude.{
  ◌≡◌, refl, ap, ◌∙◌, true, false, [], ◌∷◌, ◌++◌, Option, none, some, Text, codes, text_eq, truthy,
  ◌==◌, All, arith, Bool-cases, inl, inr,
}
use microsanbox_cloud.Text.{split}
use microsanbox_cloud.Text.Split.{IsSegment, split_all, split-append}
use microsanbox_cloud.Effects.{ok, after}
use microsanbox_cloud.Guards.{AuthHeader}
use microsanbox_cloud.Text.Decimal.{all_digits, number_from}
use microsanbox_cloud.Control.Preview.{port_path, standard_path, signed_path}
use microsanbox_cloud.Proxy.{
  Url, signed, standard, rest_path, port_route, signed_route, standard_route, read_preview_token,
  standard_match, extract_from, extract,
}

digits-IsSegment : (s : Text) → all_digits s ≡ true → IsSegment b'/' s
unfolding all_digits
digits-IsSegment [] h = tt
digits-IsSegment (c ∷ s) h = (ground (arith, h), digits-IsSegment s (ground (arith, h)))

abbrev slash : Text
slash = codes "/"

-- The key and the port of a link: no slash, and decimal digits.
pub record IsRoute (key port : Text) : Type 0 where
  pub key_given : truthy key ≡ true
  pub port_given : truthy port ≡ true
  pub whole : All (λ d. (d == b'/') ≡ false) key
  pub digits : all_digits port ≡ true

module _ (key port : Text) (r : IsRoute key port) where
  split-port_path : split b'/' (port_path key port) ≡ key ∷ codes "ports" ∷ port ∷ []
  split-port_path =
      split-append b'/' key _ r.whole
      ∙ ap (λ ps. key ∷ ps)
          (split-append b'/' (codes "ports") port (refl, (refl, (refl, (refl, (refl, tt)))))
            ∙ ap (λ ps. codes "ports" ∷ ps) (split_all b'/' port (digits-IsSegment port r.digits)))

  split-standard_path :
      split b'/' (standard_path key port) ≡ [] ∷ codes "proxy" ∷ key ∷ codes "ports" ∷ port ∷ []
  split-standard_path =
      split-append b'/' [] _ tt
      ∙ ap (λ ps. [] ∷ ps)
          (split-append b'/' (codes "proxy") _ (refl, (refl, (refl, (refl, (refl, tt)))))
            ∙ ap (λ ps. codes "proxy" ∷ ps) split-port_path)

  split-signed_path :
      split b'/' (signed_path key port)
      ≡ [] ∷ codes "proxy" ∷ codes "signed" ∷ key ∷ codes "ports" ∷ port ∷ []
  split-signed_path =
      split-append b'/' [] _ tt
      ∙ ap (λ ps. [] ∷ ps)
          (split-append b'/' (codes "proxy") _ (refl, (refl, (refl, (refl, (refl, tt)))))
            ∙ ap (λ ps. codes "proxy" ∷ ps)
                (split-append b'/' (codes "signed") _
                    (refl, (refl, (refl, (refl, (refl, (refl, tt))))))
                  ∙ ap (λ ps. codes "signed" ∷ ps) split-port_path))

  route : port_route (key ∷ codes "ports" ∷ port ∷ []) ≡ some (key, number_from 0 port, codes "/")
  unfolding port_route rest_path text_eq
  route = rw (r.key_given, r.port_given, r.digits) refl

  unsigned : signed_route ([] ∷ codes "proxy" ∷ key ∷ codes "ports" ∷ port ∷ []) ≡ none
  unfolding signed_route text_eq
  unsigned = elim (Bool-cases (text_eq key (codes "signed"))) [
    | inl e ↦ rw e refl
    | inr e ↦ rw e refl
  ]

  module _ {S : Type 0} (decode : Text → Option Text) (url : Url) (header : AuthHeader) (id : Text)
      (s : S) (decoded : decode key ≡ some id) where
    standard_found :
        standard_route ([] ∷ codes "proxy" ∷ key ∷ codes "ports" ∷ port ∷ [])
        ≡ some (key, number_from 0 port, codes "/")
    unfolding standard_route text_eq
    standard_found = route

    signed_found :
        signed_route ([] ∷ codes "proxy" ∷ codes "signed" ∷ key ∷ codes "ports" ∷ port ∷ [])
        ≡ some (key, number_from 0 port, codes "/")
    unfolding signed_route text_eq
    signed_found = route

    -- The path of a preview link, with a sandbox id that is not empty and has no slash and a port in
    -- decimal digits, leads back to that sandbox and port, where decoding gives the sandbox id.
    pub extract-standard_path :
        url.pathname ≡ standard_path key port
        → extract decode url header s ≡ (
          ok (
              some (
                standard id
                  (number_from 0 port)
                  (codes "/" ++ url.search)
                  (read_preview_token header url.token))),
          s,
        )
    unfolding extract extract_from standard_match after
    extract-standard_path e =
        let parts = ap (split b'/') e ∙ split-standard_path in
        rw (parts, unsigned, extract_from, parts, standard_found, decoded) refl

    -- The path of a signed link, with a token that is not empty and has no slash and a port in
    -- decimal digits, leads back to that token and port, where decoding gives the token.
    pub extract-signed_path :
        url.pathname ≡ signed_path key port
        → extract decode url header s
          ≡ (ok (some (signed id (number_from 0 port) (codes "/" ++ url.search))), s)
    unfolding extract extract_from after
    extract-signed_path e =
        let parts = ap (split b'/') e ∙ split-signed_path in rw (parts, signed_found, decoded) refl
