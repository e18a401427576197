-- ===== src/Ssh/Tests.antt =====
-- Sessions at concrete tokens; the hash puts a letter before the token.
use microsanbox_cloud.Text.{strip_end, strip_start, replace_runs, to_lower_case, trim}
use microsanbox_cloud.Identity.{normalize_sandbox_id}
use microsanbox_cloud.Effects.{after}
use microsanbox_cloud.Registry.{find_runtime_by_sandbox_id}
use microsanbox_cloud.Prelude.{
  ℕ, false, ◌≡◌, ◌↔◌, refl, [], ◌∷◌, none, some, Text, codes, true, false, arith, text_eq,
}
use microsanbox_cloud.Database.{Db, RuntimeEntity, RuntimePortBindingRecord, Protocol}
use microsanbox_cloud.Guards.{AuthHeader, single, can_activate}
use microsanbox_cloud.Ssh.Routes.{
  Reads, CreateSessionBody, CreatedSession, replied, create_session_route, validate_token_route,
  is_ssh,
}
use microsanbox_cloud.Ssh.Opening.{HasSsh, create_session_route-validate}
use microsanbox_cloud.Registry.Tests.{runtime_a}
use microsanbox_cloud.Ssh.Entries.{SessionEntry}
use microsanbox_cloud.Ssh.{
  Sessions, create_session, validate_session, revoke_session, is_revoked, expiry_ms,
}
use microsanbox_cloud.Ssh.Validity.{IsValid, validate_session_iff}
use microsanbox_cloud.Ssh.Revocation.{creates, validates, answer_all, revoke_session-validate}

abbrev marked : Text → Text
marked token = 104 ∷ token

abbrev no_sessions : Sessions
no_sessions = record { entries = []; revoked = [] }

abbrev box_entry : SessionEntry
box_entry = record { sandbox_id = codes "box"; host_port = 31001; expires_at = 61000 }

abbrev one_session : Sessions
one_session = record { entries = (marked (codes "t"), box_entry) ∷ []; revoked = [] }

abbrev none_left : Sessions
none_left = record { entries = []; revoked = marked (codes "t") ∷ [] }

validate_session_iff_example :
    ((validate_session marked 61000 (codes "t") one_session).0 ≡ some box_entry)
    ↔ IsValid marked 61000 (codes "t") one_session box_entry
validate_session_iff_example = validate_session_iff marked 61000 (codes "t") one_session box_entry

revoked_once : revoke_session marked false (codes "t") one_session ≡ (true, none_left)
unfolding revoke_session text_eq
revoked_once = refl

revoke_session-validate_example :
    validate_session marked 1500 (codes "t") (
      answer_all marked
        (creates 600 1200 1200 (codes "t") (codes "box") 31001 (some 1)
          ∷ validates 1300 (codes "t")
          ∷ [])
        none_left)
    ≡ (
      none,
      answer_all marked
          (creates 600 1200 1200 (codes "t") (codes "box") 31001 (some 1)
            ∷ validates 1300 (codes "t")
            ∷ [])
          none_left,
    )
revoke_session-validate_example =
    revoke_session-validate marked false (codes "t") one_session none_left
      (creates 600 1200 1200 (codes "t") (codes "box") 31001 (some 1)
        ∷ validates 1300 (codes "t")
        ∷ [])
      1500 revoked_once

abbrev gateway : Reads
gateway = record {
  internal_token = codes "secret";
  ttl_seconds = 600;
  host = codes "localhost";
  now = 1000;
  later = 1000;
  token = codes "t";
}

abbrev with_key : AuthHeader
with_key = single (codes "Bearer secret")

abbrev ssh_port : RuntimePortBindingRecord
ssh_port = record {
  name = none;
  container_port = 22;
  host_port = 31001;
  protocol = Protocol.tcp;
  name_last = false;
}

abbrev ssh_box : RuntimeEntity
ssh_box = record runtime_a { sandbox_id = codes "box"; port_bindings = ssh_port ∷ [] }

abbrev ssh_db : Db
ssh_db = record {
  hosts = [];
  runtimes = ssh_box ∷ [];
  leases = [];
  volumes = [];
  preview_tokens = [];
}

abbrev ssh_body : CreateSessionBody
ssh_body = record { sandbox_id = codes "box"; expiry_minutes = some 1 }

abbrev created : CreatedSession
created = record {
  token = codes "t";
  sandbox_id = codes "box";
  expires_at = 61000;
  ssh_command = codes "ssh -p 2222 t@localhost";
}

box_created :
    (create_session_route marked gateway with_key ssh_body ssh_db no_sessions).0 ≡ replied created
unfolding create_session_route can_activate text_eq find_runtime_by_sandbox_id after
    normalize_sandbox_id strip_end strip_start replace_runs to_lower_case trim is_ssh create_session
box_created = refl

create_session_route-validate_example :
    (host_port : ℕ) × HasSsh ssh_db (codes "box") host_port
    × ((validate_token_route marked
          (record gateway { now = 61000 })
          with_key
          (codes "t")
          (create_session_route marked gateway with_key ssh_body ssh_db no_sessions).1).0
        ≡ replied (record { sandbox_id = codes "box"; host_port = host_port; expires_at = 61000 }))
unfolding is_revoked expiry_ms can_activate text_eq
create_session_route-validate_example =
    create_session_route-validate marked gateway (record gateway { now = 61000 }) with_key with_key
      ssh_body ssh_db no_sessions created box_created refl refl (omega arith)
