-- ===== src/Proxy/Refusals.antt =====
-- What the proxy answers where a check refuses a request, and why it does.
use microsanbox_cloud.Prelude.{
  ◌≡◌, refl, sym, ap, subst, ◌∙◌, ◌⊎◌, inl, inr, ℕ, ◌≤◌, ◌<◌, Bool, true, false, Option, none, some,
  Text, Bool-cases, Option-cases, find?, leb, leb→le, ◌==◌,
}
use microsanbox_cloud.Identity.{normalize_sandbox_id}
use microsanbox_cloud.Effects.{
  Error, Outcome, ok, err, Eff, after, or_throw, guard, err_parts, ok_ne_err, when◌then◌else◌,
  sandbox_id_required, sandbox_not_found, missing_preview_token, preview_token_not_found,
  port_not_exposed,
}
use microsanbox_cloud.Database.{Db, RuntimeEntity, SignedPreviewTokenEntity}
use microsanbox_cloud.Registry.{find_runtime_by_sandbox_id_or_name, normalized}
use microsanbox_cloud.Registry.Tokens.{
  is_token, get_signed_preview_token, has_signed_preview_token_expired,
}
use microsanbox_cloud.Control.Types.{Service, Backend}
use microsanbox_cloud.Control.Lifecycle.{require_runtime}
use microsanbox_cloud.Control.Lookup.{lookup, require_runtime-eq-ok, guard-eq-ok}
use microsanbox_cloud.Control.Access.{IsAllowed, may_access_sound, may_access_complete}
use microsanbox_cloud.Control.Links.{found-eq-ok}
use microsanbox_cloud.Control.Preview.{
  find_binding, may_access, resolve_proxy_target, resolve_found, resolve_signed_preview_token,
  validate_proxy_access_by_sandbox, validate_proxy_access_by_signed_token,
}
use microsanbox_cloud.Proxy.{ProxyMatch, signed, standard}
use microsanbox_cloud.Proxy.Serving.{status_of}

-- The text names no sandbox.
pub data IsLost (value : Text) (db : Db) : ℕ → Error → Type 0 where
  no_name : normalize_sandbox_id value ≡ none → IsLost value db 502 sandbox_id_required
  no_sandbox :
      (key : Text)
      → normalize_sandbox_id value ≡ some key
      → lookup value db ≡ none
      → IsLost value db 404 (sandbox_not_found value)

-- The sandbox has no binding of the port.
pub data IsUnbound (value : Text) (port : ℕ) (db : Db) : ℕ → Error → RuntimeEntity → Type 0 where
  no_port :
      (r : RuntimeEntity)
      → lookup value db ≡ some r
      → find? (λ p. p.container_port == port) r.port_bindings ≡ none
      → IsUnbound value port db 404 (port_not_exposed port r.sandbox_id) r

-- The record of the link is there and has not expired.
pub record IsLive {W : Type 0} (b : Backend W) (token : Text) (port : ℕ) (s : Service W)
    (row : SignedPreviewTokenEntity) : Type 0 where
  pub stored : find? (is_token token port) s.db.preview_tokens ≡ some row
  pub in_time : (b.now s.world).0 < row.expires_at

-- Why the check of a match refuses it, with the status of the answer and the exception.
pub data IsRefused {W : Type 0} (b : Backend W) (s : Service W)
    : ProxyMatch → ℕ → Error → Type 0 where
  lost :
      {id path : Text} {port : ℕ} {token : Option Text} {status : ℕ} {e : Error}
      → IsLost id s.db status e
      → IsRefused b s (standard id port path token) status e
  no_access :
      {id path : Text} {port : ℕ} {token : Option Text} (r : RuntimeEntity)
      → lookup id s.db ≡ some r
      → (IsAllowed r token → ⊥)
      → IsRefused b s (standard id port path token) 401 missing_preview_token
  unbound :
      {id path : Text} {port : ℕ} {token : Option Text} {status : ℕ} {e : Error} {r : RuntimeEntity}
      → IsAllowed r token
      → IsUnbound id port s.db status e r
      → IsRefused b s (standard id port path token) status e
  no_link :
      {token path : Text} {port : ℕ}
      → find? (is_token token port) s.db.preview_tokens ≡ none
      → IsRefused b s (signed token port path) 404 preview_token_not_found
  expired :
      {token path : Text} {port : ℕ} (row : SignedPreviewTokenEntity)
      → find? (is_token token port) s.db.preview_tokens ≡ some row
      → row.expires_at ≤ (b.now s.world).0
      → IsRefused b s (signed token port path) 404 preview_token_not_found
  link_lost :
      {token path : Text} {port status : ℕ} {e : Error} (row : SignedPreviewTokenEntity)
      → IsLive b token port s row
      → IsLost row.sandbox_id s.db status e
      → IsRefused b s (signed token port path) status e
  link_unbound :
      {token path : Text} {port status : ℕ} {e : Error} {r : RuntimeEntity}
      (row : SignedPreviewTokenEntity)
      → IsLive b token port s row
      → IsUnbound row.sandbox_id port s.db status e r
      → IsRefused b s (signed token port path) status e

-- A call that threw, threw at one of its steps.
after-eq-err :
    {S A B : Type 0} (m : Outcome A × S) (f : A → Eff S B) {e : Error} {s' : S}
    → after m f ≡ (err e, s')
    → (m ≡ (err e, s')) ⊎ ((a : A) × (s : S) × (m ≡ (ok a, s)) × (f a s ≡ (err e, s')))
unfolding after
after-eq-err (ok a, s) f h = inr (a, s, refl, h)
after-eq-err (err e, s) f h = let (p, q) = err_parts h in inl (λ i. (err (p i), q i))

or_throw-eq-err :
    {S A : Type 0} (o : Option A) (e : Error) (s s' : S) {e' : Error}
    → or_throw o e s ≡ (err e', s')
    → (o ≡ none) × (e ≡ e')
or_throw-eq-err none e s s' h = (refl, (err_parts h).0)
or_throw-eq-err (some a) e s s' h = absurd (ok_ne_err h)

guard-eq-err :
    {S : Type 0} (t : Bool) (e : Error) (s s' : S) {e' : Error}
    → guard t e s ≡ (err e', s')
    → (t ≡ false) × (e ≡ e')
guard-eq-err true e s s' h = absurd (ok_ne_err h)
guard-eq-err false e s s' h = (refl, (err_parts h).0)

module _ {W : Type 0} where
  runtime-IsLost :
      (value : Text) (s s' : Service W) (e : Error)
      → require_runtime value s ≡ (err e, s')
      → IsLost value s.db (status_of e) e
  unfolding require_runtime find_runtime_by_sandbox_id_or_name normalized status_of after
  runtime-IsLost value s s' e h = elim (Option-cases (normalize_sandbox_id value)) [
    | inl n ↦ subst (λ x. IsLost value s.db (status_of x) x) (err_parts (rw n at h)).0 (no_name n)
    | inr (key, n) ↦
        let (missing, same) = or_throw-eq-err _ _ s s' (rw n at h) in
        subst (λ x. IsLost value s.db (status_of x) x) same (no_sandbox key n (rw n missing))
  ]

  target-IsUnbound :
      (value : Text) (r : RuntimeEntity) (port : ℕ) (s s' : Service W) (e : Error)
      → lookup value s.db ≡ some r
      → resolve_proxy_target r port s ≡ (err e, s')
      → IsUnbound value port s.db (status_of e) e r
  unfolding resolve_proxy_target find_binding status_of
  target-IsUnbound value r port s s' e found h = elim (after-eq-err (find_binding r port s) _ h) [
    | inl m ↦
        let (missing, same) = or_throw-eq-err _ _ s s' m in
        subst (λ x. IsUnbound value port s.db (status_of x) x r) same (no_port r found missing)
    | inr (a, s1, m, k) ↦ absurd (ok_ne_err k)
  ]

  -- The check of a sandbox refuses for one of the reasons.
  pub sandbox-IsRefused :
      (b : Backend W) (id path : Text) (port : ℕ) (token : Option Text) (s s' : Service W)
      (e : Error)
      → validate_proxy_access_by_sandbox id port token s ≡ (err e, s')
      → IsRefused b s (standard id port path token) (status_of e) e
  unfolding validate_proxy_access_by_sandbox status_of
  sandbox-IsRefused b id path port token s s' e h = elim (after-eq-err (require_runtime id s) _ h) [
    | inl m ↦ lost (runtime-IsLost id s s' e m)
    | inr (r, s1, m, h1) ↦
        let (found, same) = require_runtime-eq-ok id s s1 r m in
        elim (after-eq-err (guard (may_access r token) missing_preview_token s1) _ h1) [
          | inl g ↦
              let (denied, is) = guard-eq-err (may_access r token) _ s1 s' g in
              subst (λ x. IsRefused b s (standard id port path token) (status_of x) x) is
                (no_access r found λ allowed.
                  let z : true ≡ false = sym (may_access_complete r token allowed) ∙ denied in cc)
          | inr (u, s2, g, h2) ↦
              let (given, same2) = guard-eq-ok (may_access r token) _ g in
              let there : lookup id s2.db ≡ some r =
                subst (λ t. lookup id t.db ≡ some r) (same ∙ same2) found in
              unbound (may_access_sound r token given) (
                subst (λ t. IsUnbound id port t.db (status_of e) e r) (sym (same ∙ same2))
                  (target-IsUnbound id r port s2 s' e there h2))
        ]
  ]

module _ {W : Type 0} (b : Backend W) (token path : Text) (port : ℕ) where
  found-IsRefused :
      (o : Option SignedPreviewTokenEntity) (s s' : Service W) (e : Error)
      → find? (is_token token port) s.db.preview_tokens ≡ o
      → resolve_found b token port o s ≡ (err e, s')
      → IsRefused b s (signed token port path) (status_of e) e
  unfolding resolve_found status_of after when◌then◌else◌ has_signed_preview_token_expired
  found-IsRefused none s s' e stored h =
      subst (λ x. IsRefused b s (signed token port path) (status_of x) x) (err_parts h).0
        (no_link stored)
  found-IsRefused (some row) s s' e stored h =
      elim (Bool-cases (leb row.expires_at (b.now s.world).0)) [
        | inl late ↦
            subst (λ x. IsRefused b s (signed token port path) (status_of x) x)
              (err_parts (rw late at h)).0 (expired row stored (leb→le _ _ late))
        | inr early ↦ absurd (ok_ne_err (rw early at h))
      ]

  -- So does the check of a signed link.
  pub link-IsRefused :
      (s s' : Service W) (e : Error)
      → validate_proxy_access_by_signed_token b token port s ≡ (err e, s')
      → IsRefused b s (signed token port path) (status_of e) e
  unfolding validate_proxy_access_by_signed_token resolve_signed_preview_token
      get_signed_preview_token after
  link-IsRefused s s' e h =
      elim (after-eq-err
        (resolve_found b token port (find? (is_token token port) s.db.preview_tokens) s) _ h) [
          | inl m ↦ found-IsRefused _ s s' e refl m
          | inr (id, s1, m, h1) ↦
              let (row, stored, in_time, named, tables) = found-eq-ok b token port _ id s s1 m in
              let live : IsLive b token port s row = record {
                stored = stored;
                in_time = in_time;
              } in
              elim (after-eq-err (require_runtime id s1) _ h1) [
                | inl k ↦ link_lost row live (
                    subst (λ d. IsLost row.sandbox_id d (status_of e) e) tables
                      (subst (λ i. IsLost i s1.db (status_of e) e) (sym named)
                        (runtime-IsLost id s1 s' e k)))
                | inr (r, s2, k, h2) ↦
                    let (found, same) = require_runtime-eq-ok id s1 s2 r k in
                    let there : lookup id s2.db ≡ some r =
                      subst (λ t. lookup id t.db ≡ some r) same found in
                    let open_port = target-IsUnbound id r port s2 s' e there h2 in
                    link_unbound row live (
                      subst (λ d. IsUnbound row.sandbox_id port d (status_of e) e r)
                        (ap (λ t. t.db) (sym same) ∙ tables)
                        (subst (λ i. IsUnbound i port s2.db (status_of e) e r) (sym named)
                          open_port))
              ]
        ]
