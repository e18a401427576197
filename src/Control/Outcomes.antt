-- ===== src/Control/Outcomes.antt =====
-- What the requests on one sandbox have done when they return.
use microsanbox_cloud.Prelude.{
  ◌≡◌, refl, sym, subst, ◌∙◌, ◌⊎◌, find?, text_eq_refl, ap, Bool, true, false, not, List, [], ◌∷◌,
  Option, none, some, Text, arith, All, keep, text_eq, Bool-cases, inl, inr, codes, option_text_eq,
  eq_of_text_eq, any,
}
use microsanbox_cloud.Effects.{
  ok, pure, ◌>>◌, after, after-eq-ok, ok_parts, err_ne_ok, when◌then◌else◌,
}
use microsanbox_cloud.Database.{
  Db, RuntimeEntity, RuntimeStatus, PortLeaseEntity, SignedPreviewTokenEntity,
}
use microsanbox_cloud.Registry.{
  upsert, clash, update_runtime, save_runtime, release_ports, delete_runtime,
}
use microsanbox_cloud.Control.Types.{Service, Backend}
use microsanbox_cloud.Control.Monad.{on_db, modify_db}
use microsanbox_cloud.Control.Lifecycle.{
  delete, require_runtime, require_running_runtime, sync_status, normalize_status, same_status,
}
use microsanbox_cloud.Control.Lookup.{lookup, require_runtime-eq-ok, guard-eq-ok}

All-keep-not {ℓ} :
    {A : Type ℓ} (p : A → Bool) (xs : List A) → All (λ x. p x ≡ false) (keep (λ x. not (p x)) xs)
All-keep-not p [] = tt
All-keep-not p (x ∷ xs) = elim (Bool-cases (p x)) [
  | inl e ↦ rw e (All-keep-not p xs)
  | inr e ↦ rw e (e, All-keep-not p xs)
]

-- Nothing of the runtime is left in the tables.
pub record IsGone (r : RuntimeEntity) (db : Db) : Type 0 where
  pub no_row : All (λ (o : RuntimeEntity). text_eq o.id r.id ≡ false) db.runtimes
  pub no_lease : All (λ (l : PortLeaseEntity). text_eq l.runtime_id r.id ≡ false) db.leases
  pub no_token :
      All
        (λ (t : SignedPreviewTokenEntity). text_eq t.sandbox_id r.sandbox_id ≡ false)
        db.preview_tokens

delete_runtime-IsGone : (r : RuntimeEntity) (db : Db) → IsGone r (delete_runtime r db)
unfolding delete_runtime
delete_runtime-IsGone r db = record {
  no_row = All-keep-not (λ o. text_eq o.id r.id) db.runtimes;
  no_lease = All-keep-not (λ l. text_eq l.runtime_id r.id) db.leases;
  no_token = All-keep-not (λ t. text_eq t.sandbox_id r.sandbox_id) db.preview_tokens;
}

purged :
    {W : Type 0} (r : RuntimeEntity) (id : Text) (s s' : Service W)
    → (modify_db (release_ports r.id) >> (modify_db (delete_runtime r) >> pure r.sandbox_id)) s
      ≡ (ok id, s')
    → (r.sandbox_id ≡ id) × IsGone r s'.db
unfolding after
purged r id s s' h =
    let (answer, same) = ok_parts h in
    (answer, subst (λ t. IsGone r t.db) same (delete_runtime-IsGone r (release_ports r.id s.db)))

same_status_sound : (a b : RuntimeStatus) → same_status a b ≡ true → a ≡ b
unfolding same_status
same_status_sound RuntimeStatus.provisioning RuntimeStatus.provisioning h = refl
same_status_sound RuntimeStatus.running RuntimeStatus.running h = refl
same_status_sound RuntimeStatus.stopped RuntimeStatus.stopped h = refl
same_status_sound RuntimeStatus.draining RuntimeStatus.draining h = refl
same_status_sound RuntimeStatus.deleting RuntimeStatus.deleting h = refl
same_status_sound RuntimeStatus.deleted RuntimeStatus.deleted h = refl
same_status_sound RuntimeStatus.error RuntimeStatus.error h = refl
same_status_sound _ _ h = cc

option_text_eq_sound : (a : Option Text) (t : Text) → option_text_eq a (some t) ≡ true → a ≡ some t
option_text_eq_sound none t h = cc
option_text_eq_sound (some s) t h = ap some (eq_of_text_eq s t h)

-- Only the word "running" is read as running.
normalize_status-running :
    (status : Option Text)
    → normalize_status status ≡ RuntimeStatus.running
    → status ≡ some (codes "running")
unfolding normalize_status
normalize_status-running status h = option_text_eq_sound status (codes "running") (ground arith)

-- A row that was written is the row that is found under its id.
find-upsert :
    (r : RuntimeEntity) (rows : List RuntimeEntity)
    → find? (λ x. text_eq r.id x.id) (upsert r rows) ≡ some r
unfolding upsert
find-upsert r [] = rw (text_eq_refl r.id) refl
find-upsert r (o ∷ rows) = elim (Bool-cases (text_eq r.id o.id)) [
  | inl e ↦ rw (e, text_eq_refl r.id) refl
  | inr e ↦ rw (e, e) (find-upsert r rows)
]

-- The tables with a row of a runtime that was there, or has been written.
pub IsSaved : RuntimeEntity → RuntimeEntity → Db → Db → Type 0
IsSaved o r db db' =
    ((r ≡ o) × (db' ≡ db))
    ⊎ ((db' ≡ record db { runtimes = upsert r db.runtimes })
        × (find? (λ x. text_eq r.id x.id) db'.runtimes ≡ some r))

update_runtime-eq-ok :
    {W : Type 0} (r o : RuntimeEntity) (patch : RuntimeEntity → RuntimeEntity) (s s' : Service W)
    → on_db (update_runtime r patch) s ≡ (ok o, s')
    → (patch r ≡ o) × (s'.db ≡ record s.db { runtimes = upsert (patch r) s.db.runtimes })
unfolding update_runtime save_runtime
update_runtime-eq-ok r o patch s s' h = elim (Bool-cases (any (clash (patch r)) s.db.runtimes)) [
  | inl e ↦ absurd (err_ne_ok (rw e at h))
  | inr e ↦ let (p, q) = ok_parts (rw e at h) in (p, ap (λ t. t.db) (sym q))
]

module _ {W : Type 0} (b : Backend W) where
  sync_status-eq-ok :
      (r o : RuntimeEntity) (s s' : Service W)
      → sync_status b r s ≡ (ok o, s')
      → (status : Option Text) × ((b.get_status r.sandbox_name s.world).0 ≡ ok status)
        × (o ≡ record r { status = normalize_status status })
        × IsSaved r o s.db s'.db
  unfolding sync_status when◌then◌else◌ IsSaved
  sync_status-eq-ok r o s s' h =
      let (status, s1, m, h1) = after-eq-ok _ _ h in
      let kept : s1.db ≡ s.db = ap (λ p. p.1.db) (sym m) in
      let said = ap (λ p. p.0) m in
      elim (Bool-cases (same_status (normalize_status status) r.status)) [
        | inl e ↦
            let (same, state) = ok_parts (rw e at h1) in
            let read = same_status_sound _ _ e in
            (
              status,
              said,
              sym same ∙ ap (λ x. record r { status = x }) (sym read),
              inl (sym same, ap (λ t. t.db) (sym state) ∙ kept),
            )
        | inr e ↦
            let (same, saved) =
              update_runtime-eq-ok r o (λ r'. record r' { status = normalize_status status }) s1 s'
                (rw e at h1) in
            let written : s'.db ≡ record s.db { runtimes = upsert o s.db.runtimes } =
              rw (same, kept) at saved in
            (status, said, sym same, inr (written, rw written (find-upsert o s.db.runtimes)))
      ]

  -- Where a deletion returns, it answers with the sandbox that the text names, and no row, no
  -- lease and no preview token of that sandbox is left.
  pub delete-IsGone :
      (value id : Text) (s s' : Service W)
      → delete b value s ≡ (ok id, s')
      → (r : RuntimeEntity) × (lookup value s.db ≡ some r) × (r.sandbox_id ≡ id) × IsGone r s'.db
  unfolding delete
  delete-IsGone value id s s' h =
      let (r, s1, look, h1) = after-eq-ok (require_runtime value s) _ h in
      let (found, same) = require_runtime-eq-ok value s s1 r look in
      let (u, s2, g, h2) = after-eq-ok _ _ h1 in
      let (v, s3, k, h3) = after-eq-ok _ _ h2 in
      let (answer, gone) = purged r id s3 s' h3 in (r, found, answer, gone)

  -- A request that needs a running sandbox goes on only if the backend says that the sandbox that
  -- the text names is running, whatever its row says. It goes on with this row, the status set to
  -- running, and either that is the row as it was and the tables are unchanged, or it has been
  -- written in the place of the row with its id, where it is found, and nothing else has changed.
  pub require_running_runtime-IsRunning :
      (value : Text) (s s' : Service W) (r : RuntimeEntity)
      → require_running_runtime b value s ≡ (ok r, s')
      → (o : RuntimeEntity) × (lookup value s.db ≡ some o)
        × ((b.get_status o.sandbox_name s.world).0 ≡ ok (some (codes "running")))
        × (r ≡ record o { status = RuntimeStatus.running })
        × IsSaved o r s.db s'.db
  unfolding require_running_runtime
  require_running_runtime-IsRunning value s s' r h =
      let (o, s1, look, h1) = after-eq-ok (require_runtime value s) _ h in
      let (found, same) = require_runtime-eq-ok value s s1 o look in
      let (o2, s2, g, h2) = after-eq-ok (sync_status b o s1) _ h1 in
      let (u, s3, k, h3) = after-eq-ok _ _ h2 in
      let (running, same2) = guard-eq-ok _ _ k in
      let (answer, same3) = ok_parts h3 in
      let (status, said, read, saved) = sync_status-eq-ok o o2 s1 s2 g in
      let is_running = same_status_sound _ _ running in
      let word = normalize_status-running status (sym (ap (λ x. x.status) read) ∙ is_running) in
      (
        o,
        found,
        subst (λ t. (b.get_status o.sandbox_name t.world).0 ≡ ok (some (codes "running")))
            (sym same) (rw word at said),
        sym answer
            ∙ read
            ∙ ap (λ x. record o { status = x }) (sym (ap (λ x. x.status) read) ∙ is_running),
        subst (λ t. IsSaved o r t.db s'.db) (sym same)
            (subst (λ t. IsSaved o r s1.db t.db) (same2 ∙ same3)
              (subst (λ x. IsSaved o x s1.db s2.db) answer saved)),
      )
