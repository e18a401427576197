-- ===== src/Control/Links.antt =====
-- Signed preview links.
use microsanbox_cloud.Prelude.{
  ◌≡◌, refl, sym, ap, subst, ◌∙◌, ℕ, ◌<◌, Option, none, some, Text, arith, find?, leb, ◌==◌,
  Bool-cases, inl, inr,
}
use microsanbox_cloud.Effects.{ok, after, after-eq-ok, ok_parts, err_ne_ok, when◌then◌else◌}
use microsanbox_cloud.Database.{RuntimeEntity, RuntimePortBindingRecord, SignedPreviewTokenEntity}
use microsanbox_cloud.Registry.Tokens.{
  is_token, get_signed_preview_token, has_signed_preview_token_expired,
}
use microsanbox_cloud.Control.Types.{Service, Backend}
use microsanbox_cloud.Control.Lifecycle.{require_runtime}
use microsanbox_cloud.Control.Lookup.{lookup, or_throw-eq-ok, require_runtime-eq-ok}
use microsanbox_cloud.Control.Preview.{
  find_binding, resolve_proxy_target, resolve_found, resolve_signed_preview_token,
  validate_proxy_access_by_signed_token,
}

-- A link that was followed: its record is in the table and has not expired, its sandbox is there,
-- the port is bound, and the tables are as before.
pub record IsFollowed {W : Type 0} (b : Backend W) (token : Text) (port : ℕ) (s s' : Service W)
    (r : RuntimeEntity) (host : ℕ) : Type 0 where
  pub row : SignedPreviewTokenEntity
  pub stored : find? (is_token token port) s.db.preview_tokens ≡ some row
  pub in_time : (b.now s.world).0 < row.expires_at
  pub found : lookup row.sandbox_id s.db ≡ some r
  pub binding : RuntimePortBindingRecord
  pub bound : find? (λ p. p.container_port == port) r.port_bindings ≡ some binding
  pub target : binding.host_port ≡ host
  pub tables : s'.db ≡ s.db

module _ {W : Type 0} (b : Backend W) (token : Text) (port : ℕ) where
  pub found-eq-ok :
      (o : Option SignedPreviewTokenEntity) (id : Text) (s s' : Service W)
      → resolve_found b token port o s ≡ (ok id, s')
      → (row : SignedPreviewTokenEntity) × (o ≡ some row)
        × ((b.now s.world).0 < row.expires_at)
        × (row.sandbox_id ≡ id)
        × (s'.db ≡ s.db)
  unfolding resolve_found after when◌then◌else◌ has_signed_preview_token_expired
  found-eq-ok none id s s' h = absurd (err_ne_ok h)
  found-eq-ok (some row) id s s' h = elim (Bool-cases (leb row.expires_at (b.now s.world).0)) [
    | inl e ↦ absurd (err_ne_ok (rw e at h))
    | inr e ↦
        let (answer, same) = ok_parts (rw e at h) in
        (row, refl, ground arith, answer, ap (λ t. t.db) (sym same))
  ]

  -- Where the proxy follows a signed link, its record has not expired, and the answer is the
  -- record's sandbox and the host port of the binding of the port; the tables are unchanged.
  pub signed_token-IsFollowed :
      (s s' : Service W) (r : RuntimeEntity) (host : ℕ)
      → validate_proxy_access_by_signed_token b token port s ≡ (ok (r, host), s')
      → IsFollowed b token port s s' r host
  unfolding validate_proxy_access_by_signed_token resolve_signed_preview_token
      get_signed_preview_token resolve_proxy_target find_binding after
  signed_token-IsFollowed s s' r host h =
      let (id, s1, m, h1) =
        after-eq-ok (resolve_found b token port (find? (is_token token port) s.db.preview_tokens) s)
          _ h in
      let (row, stored, in_time, named, tables) = found-eq-ok _ id s s1 m in
      let (r1, s2, look, h2) = after-eq-ok (require_runtime id s1) _ h1 in
      let (found, same) = require_runtime-eq-ok id s1 s2 r1 look in
      let (binding, s3, k, h3) = after-eq-ok _ _ h2 in
      let (bound, same2) = or_throw-eq-ok _ _ k in
      let (answer, same3) = ok_parts h3 in
      subst (λ p. IsFollowed b token port s s' p.0 p.1) answer
        (record {
          row = row;
          stored = stored;
          in_time = in_time;
          found =
              subst (λ d. lookup row.sandbox_id d ≡ some r1) tables
                (subst (λ i. lookup i s1.db ≡ some r1) (sym named) found);
          binding = binding;
          bound = bound;
          target = refl;
          tables = ap (λ t. t.db) (sym (same ∙ same2 ∙ same3)) ∙ tables;
        })
