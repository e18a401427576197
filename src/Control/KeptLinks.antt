-- ===== src/Control/KeptLinks.antt =====
-- The operations on volumes, images and previews lease no port twice.
use microsanbox_cloud.Prelude.{
  ℕ, Text, text_eq, ◌||◌, Option, none, some, any, keep, not, Bool-cases, inl, inr,
}
use microsanbox_cloud.Effects.{◌>>◌, catch, throw}
use microsanbox_cloud.Effects.Keeps.{
  Keeps, Keeps-choice, Keeps-after, Keeps-or_throw, Keeps-guard, Keeps-recover,
}
use microsanbox_cloud.Database.{VolumeEntity, SignedPreviewTokenEntity}
use microsanbox_cloud.Config.{AppConfig}
use microsanbox_cloud.Registry.{volume_backend_name}
use microsanbox_cloud.Registry.Volumes.{
  find_volume, find_volume_by_id_or_name, save_volume, delete_volume,
}
use microsanbox_cloud.Registry.Tokens.{
  on_sandbox, is_token, create_signed_preview_token, get_signed_preview_token,
  expire_signed_preview_token,
}
use microsanbox_cloud.Control.Types.{Backend, RuntimeRegistryAuthDto}
use microsanbox_cloud.Control.Monad.{on_world, modify_db}
use microsanbox_cloud.Control.Spec.{require_volume}
use microsanbox_cloud.Control.Provisioned.{normalize_name-Keeps}
use microsanbox_cloud.Control.Exclusive.{DbSafe, Safe, IsKept, normalized-Keeps}
use microsanbox_cloud.Control.Kept.{require-Keeps, running-Keeps}
use microsanbox_cloud.Control.Preview.{
  find_binding, validate_preview_token, get_preview_public_state, expire_signed_preview_url,
  resolve_found, resolve_signed_preview_token, ensure_previewable, get_preview_url,
  get_signed_preview_url,
}
use microsanbox_cloud.Control.Volumes.{refuse_volume, create_volume, remove_volume}
use microsanbox_cloud.Control.Listing.{get_volume, pull_image}

module _ {W : Type 0} (config : AppConfig) (b : Backend W) (Q : W → Type 0)
    (kept : IsKept b Q) where
  found_volume-Keeps : (value : Text) (name : Option Text) → Keeps DbSafe (find_volume value name)
  unfolding find_volume
  found_volume-Keeps value none db p = p
  found_volume-Keeps value (some name) db p = p

  find_volume-Keeps : (value : Text) → Keeps DbSafe (find_volume_by_id_or_name value)
  unfolding find_volume_by_id_or_name
  find_volume-Keeps value db p =
      Keeps-after DbSafe _ _ (normalize_name-Keeps config b Q kept DbSafe (some value) db p)
        λ name db p. found_volume-Keeps value name db p

  require_volume-Keeps : (value : Text) → Keeps DbSafe (require_volume value)
  unfolding require_volume
  require_volume-Keeps value db p =
      Keeps-after DbSafe _ _ (find_volume-Keeps value db p)
        λ found db p. Keeps-or_throw DbSafe found _ db p

  save_volume-Keeps : (v : VolumeEntity) → Keeps DbSafe (save_volume v)
  unfolding save_volume
  save_volume-Keeps v db p =
      elim (Bool-cases
        (any (λ o. text_eq v.name o.name || text_eq v.backend_name o.backend_name) db.volumes)) [
          | inl e ↦ rw e p
          | inr e ↦ rw e p
        ]

  pub get_volume-Keeps : (value : Text) → Keeps (Safe Q) (get_volume value)
  unfolding get_volume
  get_volume-Keeps value s p = (require_volume-Keeps value s.db p.0, p.1)

  pub remove_volume-Keeps : (value : Text) → Keeps (Safe Q) (remove_volume b value)
  unfolding remove_volume delete_volume
  remove_volume-Keeps value s p =
      Keeps-after (Safe Q) _ _ (require_volume-Keeps value s.db p.0, p.1)
        λ volume s p.
          Keeps-after (Safe Q) _ _ (p.0, kept.remove_volume _ s.world p.1)
            λ _ s p. Keeps-after (Safe Q) _ _ p λ _ s p. p

  refuse_volume-Keeps :
      (name : Text) (o : Option VolumeEntity) → Keeps (Safe Q) (refuse_volume b name o)
  unfolding refuse_volume
  refuse_volume-Keeps name none s p = p
  refuse_volume-Keeps name (some v) s p = p

  ensured-Keeps :
      (v : VolumeEntity)
      → Keeps (Safe Q) (
          catch
            (on_world (b.ensure_volume v.backend_name v.quota_mib))
            (λ e. modify_db (delete_volume v) >> throw e))
  unfolding delete_volume
  ensured-Keeps v s p =
      Keeps-recover (Safe Q) (on_world (b.ensure_volume v.backend_name v.quota_mib) s)
        (λ e. modify_db (delete_volume v) >> throw e) (p.0, kept.ensure_volume _ _ s.world p.1)
        (λ e s p. Keeps-after (Safe Q) _ _ p λ _ s p. p)

  pub create_volume-Keeps :
      (raw : Text) (quota_mib : Option ℕ) → Keeps (Safe Q) (create_volume b config raw quota_mib)
  unfolding create_volume volume_backend_name delete_volume
  create_volume-Keeps raw quota_mib s p =
      Keeps-after (Safe Q) _ _ (normalize_name-Keeps config b Q kept (Safe Q) (some raw) s p)
        λ given s p. Keeps-after (Safe Q) _ _ (Keeps-or_throw (Safe Q) given _ s p) λ name s p.
          Keeps-after (Safe Q) _ _ (find_volume-Keeps name s.db p.0, p.1)
            λ found s p. Keeps-after (Safe Q) _ _ (refuse_volume-Keeps name found s p) λ _ s p.
              Keeps-after (Safe Q) _ _ (normalized-Keeps (Safe Q) name s p) λ seed s p.
                Keeps-after (Safe Q) _ _ (Keeps-or_throw DbSafe _ _ s.db p.0, p.1)
                  λ backend_name s p.
                    Keeps-after (Safe Q) _ _ (p.0, kept.new_id s.world p.1)
                      λ id s p.
                        Keeps-after (Safe Q) _ _ (save_volume-Keeps _ s.db p.0, p.1)
                          λ volume s p.
                            Keeps-after (Safe Q) _ _ (ensured-Keeps volume s p) λ _ s p. p

  pub pull_image-Keeps :
      (reference : Text) (auth : Option RuntimeRegistryAuthDto)
      → Keeps (Safe Q) (pull_image b reference auth)
  unfolding pull_image
  pull_image-Keeps reference auth s p =
      Keeps-after (Safe Q) _ _ (Keeps-guard (Safe Q) _ _ s p)
        λ _ s p. (p.0, kept.pull_image _ _ s.world p.1)

  pub public_state-Keeps : (v : Text) → Keeps (Safe Q) (get_preview_public_state v)
  unfolding get_preview_public_state
  public_state-Keeps v s p =
      Keeps-after (Safe Q) _ _ (require-Keeps config b Q kept v s p) λ r s p. p

  pub validate-Keeps : (v token : Text) → Keeps (Safe Q) (validate_preview_token v token)
  unfolding validate_preview_token
  validate-Keeps v token s p =
      Keeps-after (Safe Q) _ _ (require-Keeps config b Q kept v s p)
        λ r s p. Keeps-after (Safe Q) _ _ (Keeps-guard (Safe Q) _ _ s p) λ _ s p. p

  pub expire-Keeps :
      (v : Text) (port : ℕ) (token : Text) → Keeps (Safe Q) (expire_signed_preview_url v port token)
  unfolding expire_signed_preview_url get_signed_preview_token expire_signed_preview_token
  expire-Keeps v port token s p =
      Keeps-after (Safe Q) _ _ (require-Keeps config b Q kept v s p) λ r s p.
        Keeps-after (Safe Q) _ _ p λ found s p.
          Keeps-after (Safe Q) _ _ (Keeps-or_throw (Safe Q) found _ s p) λ row s p.
            Keeps-after (Safe Q) _ _ (Keeps-guard (Safe Q) _ _ s p)
              λ _ s p. Keeps-after (Safe Q) _ _ p λ _ s p. p

  resolve_found-Keeps :
      (token : Text) (port : ℕ) (found : Option SignedPreviewTokenEntity)
      → Keeps (Safe Q) (resolve_found b token port found)
  unfolding resolve_found expire_signed_preview_token
  resolve_found-Keeps token port none s p = p
  resolve_found-Keeps token port (some found) s p =
      Keeps-after (Safe Q) _ _ (p.0, kept.now s.world p.1)
        λ time s p. Keeps-choice (Safe Q) _ _ _ s (Keeps-after (Safe Q) _ _ p λ _ s p. p) p

  pub resolve-Keeps :
      (token : Text) (port : ℕ) → Keeps (Safe Q) (resolve_signed_preview_token b token port)
  unfolding resolve_signed_preview_token get_signed_preview_token
  resolve-Keeps token port s p =
      Keeps-after (Safe Q) _ _ p λ found s p. resolve_found-Keeps token port found s p

  previewable-Keeps : (v : Text) (port : ℕ) → Keeps (Safe Q) (ensure_previewable b v port)
  unfolding ensure_previewable find_binding
  previewable-Keeps v port s p =
      Keeps-after (Safe Q) _ _ (running-Keeps config b Q kept v s p)
        λ r s p. Keeps-after (Safe Q) _ _ (Keeps-or_throw (Safe Q) _ _ s p) λ _ s p. p

  pub url-Keeps : (v : Text) (port : ℕ) → Keeps (Safe Q) (get_preview_url b config v port)
  unfolding get_preview_url
  url-Keeps v port s p =
      Keeps-after (Safe Q) _ _ (previewable-Keeps v port s p)
        λ r s p. Keeps-after (Safe Q) _ _ (Keeps-or_throw (Safe Q) _ _ s p) λ key s p. p

  token-Keeps :
      (time : ℕ) (drawn sandbox_id : Text) (port ttl : ℕ)
      → Keeps DbSafe (create_signed_preview_token time drawn sandbox_id port ttl)
  unfolding create_signed_preview_token
  token-Keeps time drawn sandbox_id port ttl db p =
      elim (Bool-cases (
        any (is_token drawn port)
          (keep (λ t. not (on_sandbox sandbox_id port t)) db.preview_tokens))) [
            | inl e ↦ rw e p
            | inr e ↦ rw e p
          ]

  pub signed_url-Keeps :
      (v : Text) (port : ℕ) → Keeps (Safe Q) (get_signed_preview_url b config v port)
  unfolding get_signed_preview_url
  signed_url-Keeps v port s p = Keeps-after (Safe Q) _ _ (previewable-Keeps v port s p) λ r s p.
      Keeps-after (Safe Q) _ _ (p.0, kept.draw 24 s.world p.1)
        λ drawn s p.
          Keeps-after (Safe Q) _ _ (p.0, kept.now s.world p.1)
            λ time s p.
              Keeps-after (Safe Q) _ _ (token-Keeps time drawn r.sandbox_id port _ s.db p.0, p.1)
                λ row s p. Keeps-after (Safe Q) _ _ (Keeps-or_throw (Safe Q) _ _ s p) λ key s p. p
