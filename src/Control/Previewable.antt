-- ===== src/Control/Previewable.antt =====
-- The sandbox that a preview link is made for.
use microsanbox_cloud.Prelude.{
  ◌≡◌, refl, sym, subst, ap, ◌∙◌, Bool, true, false, List, [], ◌∷◌, none, some, Text, ℕ, find?, any,
  ◌==◌, text_eq, text_eq_refl, Bool-cases, Option-cases, inl, inr,
}
use microsanbox_cloud.Identity.{normalize_sandbox_id}
use microsanbox_cloud.Effects.{ok, after-eq-ok, ok_parts, err_ne_ok, when◌then◌else◌}
use microsanbox_cloud.Database.{Db, RuntimeEntity, RuntimePortBindingRecord}
use microsanbox_cloud.Registry.{clash, upsert, save_runtime, update_runtime}
use microsanbox_cloud.Control.Types.{Service, Backend}
use microsanbox_cloud.Control.Lifecycle.{
  require_runtime, require_running_runtime, sync_status, normalize_status, same_status,
}
use microsanbox_cloud.Control.Lookup.{
  is_called, lookup, guard-eq-ok, or_throw-eq-ok, require_runtime-eq-ok,
}
use microsanbox_cloud.Control.Preview.{find_binding, ensure_previewable}

find?-true {ℓ} :
    {A : Type ℓ} (p : A → Bool) (xs : List A) {a : A} → find? p xs ≡ some a → p a ≡ true
find?-true p [] h = cc
find?-true p (x ∷ xs) {a} h = elim (Bool-cases (p x)) [
  | inl e ↦ (let same : some x ≡ some a = rw e at h in let y : x ≡ a = cc in rw (← y) e)
  | inr e ↦ find?-true p xs (rw e at h)
]

-- A row that is written in the place of the row that a text names is named by it.
find?-upsert :
    (p : RuntimeEntity → Bool) (o r : RuntimeEntity) (rows : List RuntimeEntity)
    → r.id ≡ o.id
    → p r ≡ p o
    → find? p rows ≡ some o
    → find? p (upsert r rows) ≡ some r
unfolding upsert
find?-upsert p o r [] id called h = cc
find?-upsert p o r (x ∷ rows) id called h = elim (Bool-cases (text_eq r.id x.id)) [
  | inl e ↦ rw (e, called, find?-true p (x ∷ rows) h) refl
  | inr e ↦ elim (Bool-cases (p x)) [
    | inl c ↦
        let same : some x ≡ some o = rw c at h in
        let y : x ≡ o = cc in
        absurd (let z : true ≡ false = sym (text_eq_refl o.id) ∙ rw (id, y) at e in cc)
    | inr c ↦ rw (e, c) (find?-upsert p o r rows id called (rw c at h))
  ]
]

-- The row before and the row after the status was read.
pub record IsSynced (o r : RuntimeEntity) (db db' : Db) : Type 0 where
  pub sandbox_id : r.sandbox_id ≡ o.sandbox_id
  pub auth_token : r.auth_token ≡ o.auth_token
  pub named : (value : Text) → lookup value db ≡ some o → lookup value db' ≡ some r
  pub tokens : db'.preview_tokens ≡ db.preview_tokens

-- The same, where the row is a row of the table with another status.
written-IsSynced :
    (o r : RuntimeEntity) (db : Db)
    → r.id ≡ o.id
    → r.sandbox_id ≡ o.sandbox_id
    → r.name ≡ o.name
    → r.auth_token ≡ o.auth_token
    → IsSynced o r db (record db { runtimes = upsert r db.runtimes })
written-IsSynced o r db id sandbox name token = record {
  sandbox_id = sandbox;
  auth_token = token;
  named = named;
  tokens = refl;
}
  where
    named :
        (value : Text)
        → lookup value db ≡ some o
        → lookup value (record db { runtimes = upsert r db.runtimes }) ≡ some r
    named value h = elim (Option-cases (normalize_sandbox_id value)) [
      | inl e ↦ absurd (let z : none ≡ some o = rw e at h in cc)
      | inr (key, e) ↦
          rw e
            (find?-upsert (is_called key) o r db.runtimes id (rw (sandbox, name) refl) (rw e at h))
    ]

module _ {W : Type 0} (b : Backend W) where
  synced :
      (o r : RuntimeEntity) (s s' : Service W)
      → sync_status b o s ≡ (ok r, s')
      → IsSynced o r s.db s'.db
  unfolding sync_status when◌then◌else◌ update_runtime save_runtime
  synced o r s s' h =
      let (status, s1, m, h1) = after-eq-ok _ _ h in
      let kept : s.db ≡ s1.db = ap (λ p. p.1.db) m in
      let row : RuntimeEntity = record o { status = normalize_status status } in
      subst (λ d. IsSynced o r d s'.db) (sym kept)
        (elim (Bool-cases (same_status (normalize_status status) o.status)) [
          | inl e ↦
              let (answer, same) = ok_parts (rw e at h1) in
              subst (λ t. IsSynced o r s1.db t.db) same
                (subst (λ x. IsSynced o x s1.db s1.db) answer
                  (record {
                    sandbox_id = refl;
                    auth_token = refl;
                    named = λ value k. k;
                    tokens = refl;
                  }))
          | inr e ↦ elim (Bool-cases (any (clash row) s1.db.runtimes)) [
            | inl c ↦ absurd (err_ne_ok (rw (e, c) at h1))
            | inr c ↦
                let (answer, same) = ok_parts (rw (e, c) at h1) in
                subst (λ t. IsSynced o r s1.db t.db) same
                  (subst
                    (λ x.
                      IsSynced o x s1.db (record s1.db { runtimes = upsert row s1.db.runtimes }))
                    answer (written-IsSynced o row s1.db refl refl refl refl))
          ]
        ])

  -- What a sandbox that a link was made for was before, and that it binds the port.
  ensure_previewable-eq-ok :
      (value : Text) (port : ℕ) (s s' : Service W) (r : RuntimeEntity)
      → ensure_previewable b value port s ≡ (ok r, s')
      → (o : RuntimeEntity) × (lookup value s.db ≡ some o)
        × IsSynced o r s.db s'.db
        × ((binding : RuntimePortBindingRecord) × (find?
                (λ p. p.container_port == port)
                r.port_bindings
              ≡ some binding))
  unfolding ensure_previewable require_running_runtime find_binding
  ensure_previewable-eq-ok value port s s' r h =
      let (r1, s1, m, h1) = after-eq-ok (require_running_runtime b value s) _ h in
      let (o, s2, look, m1) = after-eq-ok (require_runtime value s) _ m in
      let (found, same0) = require_runtime-eq-ok value s s2 o look in
      let (r2, s3, g, m2) = after-eq-ok (sync_status b o s2) _ m1 in
      let (u, s4, k, m3) = after-eq-ok _ _ m2 in
      let (running, same1) = guard-eq-ok _ _ k in
      let (is_r1, same2) = ok_parts m3 in
      let (binding, s5, f, h2) = after-eq-ok _ _ h1 in
      let (bound, same3) = or_throw-eq-ok _ _ f in
      let (is_r, same4) = ok_parts h2 in
      let unchanged : s3 ≡ s' = same1 ∙ same2 ∙ same3 ∙ same4 in
      let whole = synced o r2 s2 s3 g in
      (
        o,
        found,
        subst (λ t. IsSynced o r s.db t.db) unchanged
            (subst (λ x. IsSynced o x s.db s3.db) (is_r1 ∙ is_r)
              (subst (λ t. IsSynced o r2 t.db s3.db) (sym same0) whole)),
        (
          binding,
          subst (λ x. find? (λ p. p.container_port == port) x.port_bindings ≡ some binding) is_r
              bound,
        ),
      )

  -- The same for the row that the text names.
  pub ensure_previewable_of_lookup :
      (value : Text) (port : ℕ) (s s' : Service W) (o r : RuntimeEntity)
      → lookup value s.db ≡ some o
      → ensure_previewable b value port s ≡ (ok r, s')
      → IsSynced o r s.db s'.db
        × ((binding : RuntimePortBindingRecord) × (find?
                (λ p. p.container_port == port)
                r.port_bindings
              ≡ some binding))
  ensure_previewable_of_lookup value port s s' o r named h =
      let (o', found, moved, bound) = ensure_previewable-eq-ok value port s s' r h in
      let z : some o' ≡ some o = sym found ∙ named in
      let same : o' ≡ o = cc in (subst (λ x. IsSynced x r s.db s'.db) same moved, bound)
