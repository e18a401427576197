-- ===== src/Ssh/Routes.antt =====
-- apps/cloud-api/src/ssh/ssh.controller.ts: the routes of the SSH sessions. The dates of the answers
-- stay numbers of milliseconds.
use microsanbox_cloud.Prelude.{
  ℕ, Bool, true, false, ◌||◌, ◌++◌, Option, none, some, Text, codes, option_text_eq, ◌==◌, find?,
  if◌then◌else◌,
}
use microsanbox_cloud.Effects.{Error, Outcome, ok, err}
use microsanbox_cloud.Database.{Db, RuntimeEntity, RuntimePortBindingRecord}
use microsanbox_cloud.Guards.{AuthHeader, can_activate}
use microsanbox_cloud.Registry.{find_runtime_by_sandbox_id}
use microsanbox_cloud.Ssh.Entries.{SessionEntry}
use microsanbox_cloud.Ssh.{Sessions, create_session, validate_session, revoke_session}

-- The UnauthorizedException of the guard, the BadRequestExceptions of the routes, and an exception
-- of the registry.
pub data Problem : Type 0 where
  unauthorized not_revoked invalid_session : Problem
  sandbox_not_found ssh_not_enabled : Text → Problem
  registry_error : Error → Problem

pub data Reply (A : Type 0) : Type 0 where
  replied : A → Reply A
  failed : Problem → Reply A

pub record CreatedSession : Type 0 where
  pub token : Text
  pub sandbox_id : Text
  pub expires_at : ℕ
  pub ssh_command : Text

unfoldable pub is_ssh : RuntimePortBindingRecord → Bool
is_ssh p = option_text_eq p.name (some (codes "ssh")) || p.container_port == 22

unfoldable pub ssh_binding : RuntimeEntity → Option RuntimePortBindingRecord
ssh_binding runtime = find? is_ssh runtime.port_bindings

-- The body of `POST ssh-session`.
pub record CreateSessionBody : Type 0 where
  pub sandbox_id : Text
  pub expiry_minutes : Option ℕ

-- The texts and numbers that a request reads: the internal token, the configured seconds, the name
-- of the host of the proxy, the time at `pruneExpired` and after it, and the random text.
pub record Reads : Type 0 where
  pub internal_token : Text
  pub ttl_seconds : ℕ
  pub host : Text
  pub now : ℕ
  pub later : ℕ
  pub token : Text

module _ (hash : Text → Text) where
  unfoldable pub create_at :
      Reads
      → CreateSessionBody
      → RuntimePortBindingRecord
      → Sessions
      → Reply CreatedSession × Sessions
  create_at r body binding s =
      let ((token, entry), next) =
        create_session hash r.ttl_seconds r.now r.later r.token body.sandbox_id binding.host_port
          body.expiry_minutes s in
      (
        replied (record {
          token = token;
          sandbox_id = entry.sandbox_id;
          expires_at = entry.expires_at;
          ssh_command = codes "ssh -p 2222 " ++ token ++ codes "@" ++ r.host;
        }),
        next,
      )

  unfoldable pub create_bound :
      Reads
      → CreateSessionBody
      → Option RuntimePortBindingRecord
      → Sessions
      → Reply CreatedSession × Sessions
  unfolding create_at
  create_bound r body none s = (failed (ssh_not_enabled body.sandbox_id), s)
  create_bound r body (some binding) s = create_at r body binding s

  unfoldable pub create_for :
      Reads
      → CreateSessionBody
      → Outcome (Option RuntimeEntity)
      → Sessions
      → Reply CreatedSession × Sessions
  unfolding create_bound ssh_binding
  create_for r body (err e) s = (failed (registry_error e), s)
  create_for r body (ok none) s = (failed (sandbox_not_found body.sandbox_id), s)
  create_for r body (ok (some runtime)) s = create_bound r body (ssh_binding runtime) s

  -- `POST ssh-session`
  unfoldable pub create_session_route :
      Reads → AuthHeader → CreateSessionBody → Db → Sessions → Reply CreatedSession × Sessions
  unfolding create_for
  create_session_route r header body db s =
      if can_activate r.internal_token header
      then create_for r body (find_runtime_by_sandbox_id body.sandbox_id db).0 s
      else (failed unauthorized, s)

  unfoldable pub revoked_reply : Text → Bool × Sessions → Reply (Text × Bool) × Sessions
  revoked_reply token (true, s) = (replied (token, true), s)
  revoked_reply token (false, s) = (failed not_revoked, s)

  -- `DELETE ssh-session/:token`
  unfoldable pub revoke_session_route :
      Reads → AuthHeader → Bool → Text → Sessions → Reply (Text × Bool) × Sessions
  unfolding revoked_reply
  revoke_session_route r header refused token s =
      if can_activate r.internal_token header
      then revoked_reply token (revoke_session hash refused token s)
      else (failed unauthorized, s)

  unfoldable pub validated_reply : Option SessionEntry × Sessions → Reply SessionEntry × Sessions
  validated_reply (none, s) = (failed invalid_session, s)
  validated_reply (some entry, s) = (replied entry, s)

  -- `GET ssh/validate`
  unfoldable pub validate_token_route :
      Reads → AuthHeader → Text → Sessions → Reply SessionEntry × Sessions
  unfolding validated_reply
  validate_token_route r header token s =
      if can_activate r.internal_token header
      then validated_reply (validate_session hash r.now token s)
      else (failed unauthorized, s)
