-- ===== src/Ssh/Opening.antt =====
-- From the route that creates a session to the route that validates it.
use microsanbox_cloud.Prelude.{
  ◌≡◌, refl, sym, ap, ℕ, ◌+◌, ◌≤◌, true, false, Option, none, some, Text, Bool-cases, inl, inr,
}
use microsanbox_cloud.Effects.{Outcome, ok, err}
use microsanbox_cloud.Database.{Db, RuntimeEntity, RuntimePortBindingRecord}
use microsanbox_cloud.Guards.{AuthHeader, can_activate}
use microsanbox_cloud.Registry.{find_runtime_by_sandbox_id}
use microsanbox_cloud.Ssh.{Sessions, expiry_ms, is_revoked, create_session}
use microsanbox_cloud.Ssh.Validity.{create_session-validate}
use microsanbox_cloud.Ssh.Routes.{
  unauthorized, Reply, replied, failed, CreatedSession, CreateSessionBody, Reads, ssh_binding,
  create_at, create_bound, create_for, create_session_route, validated_reply, validate_token_route,
}

-- A runtime of the sandbox with a port for SSH.
pub record HasSsh (db : Db) (sandbox_id : Text) (host_port : ℕ) : Type 0 where
  pub runtime : RuntimeEntity
  pub found : (find_runtime_by_sandbox_id sandbox_id db).0 ≡ ok (some runtime)
  pub binding : RuntimePortBindingRecord
  pub bound : ssh_binding runtime ≡ some binding
  pub port : host_port ≡ binding.host_port

module _ (hash : Text → Text) where
  -- A session that was created.
  pub record IsCreated (r : Reads) (body : CreateSessionBody) (db : Db) (s next : Sessions)
      (session : CreatedSession) : Type 0 where
    pub host_port : ℕ
    pub has_ssh : HasSsh db body.sandbox_id host_port
    pub token : session.token ≡ r.token
    pub stored :
        next
        ≡ (create_session hash r.ttl_seconds r.now r.later r.token body.sandbox_id host_port
            body.expiry_minutes s).1

  session_eq : (c d : CreatedSession) → replied c ≡ replied d → c ≡ d
  session_eq c d h = cc

  bound_created :
      (r : Reads) (body : CreateSessionBody) (db : Db) (s : Sessions)
      → (runtime : RuntimeEntity) (o : Option RuntimePortBindingRecord)
      → (find_runtime_by_sandbox_id body.sandbox_id db).0 ≡ ok (some runtime)
      → ssh_binding runtime ≡ o
      → (session : CreatedSession) → (create_bound hash r body o s).0 ≡ replied session
      → IsCreated r body db s (create_bound hash r body o s).1 session
  unfolding create_bound create_at create_session
  bound_created r body db s runtime none f b session h = cc
  bound_created r body db s runtime (some binding) f b session h = record {
    host_port = binding.host_port;
    has_ssh = record { runtime = runtime; found = f; binding = binding; bound = b; port = refl };
    token = sym (ap (λ c. c.token) (session_eq _ _ h));
    stored = refl;
  }

  created :
      (r : Reads) (body : CreateSessionBody) (db : Db) (s : Sessions)
      → (o : Outcome (Option RuntimeEntity)) → (find_runtime_by_sandbox_id body.sandbox_id db).0 ≡ o
      → (session : CreatedSession) → (create_for hash r body o s).0 ≡ replied session
      → IsCreated r body db s (create_for hash r body o s).1 session
  unfolding create_for
  created r body db s (err e) f session h = cc
  created r body db s (ok none) f session h = cc
  created r body db s (ok (some runtime)) f session h =
      bound_created r body db s runtime (ssh_binding runtime) f refl session h

  created_by_route :
      (r : Reads) (header : AuthHeader) (body : CreateSessionBody) (db : Db) (s : Sessions)
      → (session : CreatedSession)
      → (create_session_route hash r header body db s).0 ≡ replied session
      → IsCreated r body db s (create_session_route hash r header body db s).1 session
  unfolding create_session_route
  created_by_route r header body db s session h =
      elim (Bool-cases (can_activate r.internal_token header)) [
        | inl e ↦ rw e (created r body db s _ refl session (rw e at h))
        | inr e ↦ absurd (
            let z : ◌≡◌ {A = Reply CreatedSession} (failed unauthorized) (replied session) =
              rw e at h in
            cc)
      ]

  -- A session that the first route returned is for a sandbox of the registry with a port for SSH, and
  -- until its time is over the last route answers its token with that sandbox and the host port of
  -- that binding. Both requests pass the guard, the token was not revoked before, and no request
  -- comes between.
  pub create_session_route-validate :
      (r at : Reads) (header second : AuthHeader) (body : CreateSessionBody) (db : Db)
      (s : Sessions)
      → (session : CreatedSession)
      → (create_session_route hash r header body db s).0 ≡ replied session
      → can_activate at.internal_token second ≡ true
      → is_revoked (hash r.token) s ≡ false
      → at.now ≤ r.later + expiry_ms r.ttl_seconds body.expiry_minutes
      → (host_port : ℕ) × HasSsh db body.sandbox_id host_port
        × ((validate_token_route hash at second session.token
              (create_session_route hash r header body db s).1).0
            ≡ replied (record {
              sandbox_id = body.sandbox_id;
              host_port = host_port;
              expires_at = r.later + expiry_ms r.ttl_seconds body.expiry_minutes;
            }))
  unfolding validate_token_route validated_reply
  create_session_route-validate r at header second body db s session h g kept t =
      let c = created_by_route r header body db s session h in
      (
        c.host_port,
        c.has_ssh,
        rw (c.stored, c.token, g)
            (rw
              (create_session-validate hash r.ttl_seconds r.now r.later at.now r.token
                body.sandbox_id c.host_port body.expiry_minutes s kept t)
              refl),
      )
