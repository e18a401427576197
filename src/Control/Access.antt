-- ===== src/Control/Access.antt =====
-- Who may reach a port of a sandbox through the proxy.
use microsanbox_cloud.Prelude.{
  ◌≡◌, refl, sym, subst, ◌∙◌, ◌↔◌, ◌⊎◌, inl, inr, ap, ℕ, Bool, true, false, ◌&&◌, Option, none,
  some, Text, arith, find?, ◌==◌, text_eq, text_eq_refl, eq_of_text_eq, truthy, Bool-cases,
}
use microsanbox_cloud.Effects.{ok, after, after-eq-ok, ok_parts}
use microsanbox_cloud.Database.{RuntimeEntity, RuntimePortBindingRecord}
use microsanbox_cloud.Control.Types.{Service}
use microsanbox_cloud.Control.Lifecycle.{require_runtime}
use microsanbox_cloud.Control.Lookup.{
  lookup, guard-eq-ok, or_throw-eq-ok, require_runtime-eq-ok, require_runtime_of_lookup,
}
use microsanbox_cloud.Control.Preview.{
  find_binding, tokens_equal, may_access, resolve_proxy_target, validate_proxy_access_by_sandbox,
}

-- The sandbox is public, or the token is its own and not empty.
abbrev pub IsAllowed : RuntimeEntity → Option Text → Type 0
IsAllowed r token =
    (r.is_public ≡ true) ⊎ ((token ≡ some r.auth_token) × (truthy r.auth_token ≡ true))

pub may_access_sound :
    (r : RuntimeEntity) (token : Option Text) → may_access r token ≡ true → IsAllowed r token
unfolding may_access tokens_equal
may_access_sound r none h = inl h
may_access_sound r (some token) h = elim (Bool-cases r.is_public) [
  | inl e ↦ inl e
  | inr e ↦
      let (given, same) =
        parts _ _ (let z : (truthy token && text_eq r.auth_token token) ≡ true = rw e at h in z) in
      let equal = eq_of_text_eq r.auth_token token same in inr (ap some (sym equal), rw equal given)
]
  where
    parts : (a b : Bool) → (a && b) ≡ true → (a ≡ true) × (b ≡ true)
    parts true b h = (refl, h)
    parts false b h = absurd (ground (arith, h))

pub may_access_complete :
    (r : RuntimeEntity) (token : Option Text) → IsAllowed r token → may_access r token ≡ true
unfolding may_access tokens_equal
may_access_complete r none (inl p) = p
may_access_complete r (some token) (inl p) = rw p refl
may_access_complete r token (inr (e, t)) = rw (e, t, text_eq_refl r.auth_token) (ground arith)

-- What the answer (r, host) of the check says of the state and of the arguments.
pub record IsAdmitted {W : Type 0} (value : Text) (port : ℕ) (token : Option Text) (s : Service W)
    (r : RuntimeEntity) (host : ℕ) : Type 0 where
  pub found : lookup value s.db ≡ some r
  pub allowed : IsAllowed r token
  pub bound :
      (b : RuntimePortBindingRecord) × (find? (λ p. p.container_port == port) r.port_bindings
        ≡ some b)
      × (b.host_port ≡ host)

module _ {W : Type 0} (value : Text) (port : ℕ) (token : Option Text) (s : Service W)
    (r : RuntimeEntity) (host : ℕ) where
  admitted :
      (s' : Service W)
      → validate_proxy_access_by_sandbox value port token s ≡ (ok (r, host), s')
      → IsAdmitted value port token s r host × (s ≡ s')
  unfolding validate_proxy_access_by_sandbox resolve_proxy_target find_binding
  admitted s' h =
      let (r1, s1, look, h1) = after-eq-ok (require_runtime value s) _ h in
      let (found, same1) = require_runtime-eq-ok value s s1 r1 look in
      let (u, s2, g, h2) = after-eq-ok _ _ h1 in
      let (allowed, same2) = guard-eq-ok (may_access r1 token) _ g in
      let (b, s3, k, h3) = after-eq-ok _ _ h2 in
      let (bound, same3) = or_throw-eq-ok _ _ k in
      let (answer, same4) = ok_parts h3 in
      (
        subst (λ p. IsAdmitted value port token s p.0 p.1) answer
            (record {
              found = found;
              allowed = may_access_sound r1 token allowed;
              bound = (b, bound, refl);
            }),
        same1 ∙ same2 ∙ same3 ∙ same4,
      )

  complete :
      IsAdmitted value port token s r host
      → validate_proxy_access_by_sandbox value port token s ≡ (ok (r, host), s)
  unfolding validate_proxy_access_by_sandbox resolve_proxy_target find_binding after
  complete a =
      let (b, e, f) = a.bound in
      rw (require_runtime_of_lookup value s r a.found, may_access_complete r token a.allowed, e, f)
        refl

  -- The proxy reaches a port of a sandbox exactly if the text names that sandbox, the sandbox is
  -- public or the token is its own, and the port is bound; the answer is the sandbox and the host
  -- port of the binding, and nothing changes.
  pub validate_proxy_access_iff :
      (s' : Service W)
      → (validate_proxy_access_by_sandbox value port token s ≡ (ok (r, host), s'))
        ↔ (IsAdmitted value port token s r host × (s ≡ s'))
  validate_proxy_access_iff s' = (admitted s', λ (a, e). rw (← e) (complete a))
