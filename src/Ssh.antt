-- ===== src/Ssh.antt =====
-- apps/cloud-api/src/ssh/session.service.ts: the tokens that open an SSH session, in a map in
-- memory under their hashes, and the table of the revoked ones. The hash is a parameter.
pub mod Entries
pub mod Validity
pub mod Revocation
pub mod Routes
pub mod Opening
mod Tests
use microsanbox_cloud.Prelude.{
  ℕ, ◌+◌, ◌*◌, Bool, true, false, not, ◌||◌, List, [], ◌∷◌, Option, none, some, Text, text_eq, ltb,
  any, keep, if◌then◌else◌,
}
use microsanbox_cloud.Ssh.Entries.{SessionEntry, set, entry_of, delete_entry}

-- The service: the map, and the table of revoked tokens.
pub record Sessions : Type 0 where
  pub entries : List (Text × SessionEntry)
  pub revoked : List Text

-- `Date.now() > entry.expiresAt`
unfoldable pub is_expired : ℕ → SessionEntry → Bool
is_expired now entry = ltb entry.expires_at now

unfoldable pub prune_expired : ℕ → Sessions → Sessions
prune_expired now s = record s { entries = keep (λ e. not (is_expired now e.1)) s.entries }

unfoldable pub is_revoked : Text → Sessions → Bool
is_revoked key s = any (text_eq key) s.revoked

-- How long a session lasts, in milliseconds: the given minutes, or the configured seconds.
unfoldable pub expiry_ms : ℕ → Option ℕ → ℕ
expiry_ms ttl_seconds none = ttl_seconds * 1000
expiry_ms ttl_seconds (some minutes) = minutes * 60 * 1000

module _ (hash : Text → Text) where
  -- `token` is the random text, `now` is read by the call of `pruneExpired` and `later` after it.
  unfoldable pub create_session :
      ℕ → ℕ → ℕ → Text → Text → ℕ → Option ℕ → Sessions → (Text × SessionEntry) × Sessions
  unfolding prune_expired expiry_ms set
  create_session ttl_seconds now later token sandbox_id host_port minutes s =
      let pruned = prune_expired now s in
      let entry : SessionEntry = record {
        sandbox_id = sandbox_id;
        host_port = host_port;
        expires_at = later + expiry_ms ttl_seconds minutes;
      } in
      ((token, entry), record pruned { entries = set (hash token) entry pruned.entries })

  -- What `validateSession` does with the entry that it finds.
  unfoldable pub validate_entry :
      ℕ → Text → Option SessionEntry → Sessions → Option SessionEntry × Sessions
  unfolding is_expired delete_entry
  validate_entry now key none s = (none, s)
  validate_entry now key (some entry) s =
      if is_expired now entry
      then (none, record s { entries = delete_entry key s.entries })
      else (some entry, s)

  unfoldable pub validate_session : ℕ → Text → Sessions → Option SessionEntry × Sessions
  unfolding is_revoked validate_entry entry_of
  validate_session now token s =
      if is_revoked (hash token) s
      then (none, s)
      else validate_entry now (hash token) (entry_of (hash token) s.entries) s

  -- The hash is a unique column: a token that is revoked already is refused. `refused` says that
  -- the table does not take the row for another reason.
  unfoldable pub revoke_session : Bool → Text → Sessions → Bool × Sessions
  unfolding is_revoked delete_entry
  revoke_session refused token s =
      let removed = record s { entries = delete_entry (hash token) s.entries } in
      if refused || is_revoked (hash token) removed
      then (false, removed)
      else (true, record removed { revoked = hash token ∷ removed.revoked })
