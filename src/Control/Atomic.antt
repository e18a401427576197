-- ===== src/Control/Atomic.antt =====
-- `createVolume` where it throws, and `removeVolume` after it.
use microsanbox_cloud.Prelude.{
  ℕ, ◌≡◌, refl, ap, sym, ◌∙◌, inl, inr, Bool, false, not, ◌||◌, Bool-cases, List, [], ◌∷◌, Option,
  none, some, Option-cases, Text, text_eq, text_eq_refl, any, keep, find?, is_empty, arith,
}
use microsanbox_cloud.Text.{trim, to_lower_case}
use microsanbox_cloud.Identity.{normalize_sandbox_id}
use microsanbox_cloud.Identity.Laws.{is_empty-true, normalize_sandbox_id_idem}
use microsanbox_cloud.Identity.Refusal.{normalize_sandbox_id-none_iff}
use microsanbox_cloud.Identity as Identity
use microsanbox_cloud.Effects.{
  Outcome, ok, err, after, recover, when◌then◌else◌, pure, throw, catch, ◌>>=◌, ◌>>◌, ok_parts,
  err_ne_ok,
}
use microsanbox_cloud.Config.{AppConfig}
use microsanbox_cloud.Database.{Db, VolumeEntity}
use microsanbox_cloud.Registry.{normalize_name, normalized, volume_backend_name}
use microsanbox_cloud.Registry.Volumes.{
  find_volume, find_volume_by_id_or_name, save_volume, delete_volume,
}
use microsanbox_cloud.Control.Monad.{with_world, on_db, on_world, modify_db}
use microsanbox_cloud.Control.Types.{Service, Backend}
use microsanbox_cloud.Control.Spec.{require_volume}
use microsanbox_cloud.Control.Volumes.{create_volume, refuse_volume, remove_volume}

-- The volume has the text as its id or the name as its name.
abbrev pub answers_to : Text → Text → VolumeEntity → Bool
answers_to value name v = text_eq v.id value || text_eq v.name name

abbrev pub has_id : Text → List VolumeEntity → Bool
has_id id rows = any (λ v. text_eq v.id id) rows

module _ {W : Type 0} where
  -- The outcome of a creation: a new first row, or the tables as they were.
  pub IsAtomic : Text → Option ℕ → Db → Outcome VolumeEntity × Service W → Type 0
  IsAtomic raw quota_mib db (ok v, t) =
      (normalize_sandbox_id raw ≡ some v.name)
      × (v.quota_mib ≡ quota_mib)
      × (find? (answers_to v.name v.name) db.volumes ≡ none)
      × (has_id v.id db.volumes ≡ false)
      × (t.db ≡ record db { volumes = v ∷ db.volumes })
  IsAtomic raw quota_mib db (err e, t) = t.db ≡ db

keep_others :
    (id : Text) (rows : List VolumeEntity)
    → has_id id rows ≡ false
    → keep (λ o. not (text_eq o.id id)) rows ≡ rows
keep_others id [] h = refl
keep_others id (v ∷ rows) h = ground (arith, keep_others id rows)

-- A text with a name is not blank.
name_shown :
    (value name : Text) → normalize_sandbox_id value ≡ some name → is_empty (trim value) ≡ false
unfolding to_lower_case
name_shown value name named = elim (Bool-cases (is_empty (trim value))) [
  | inl e ↦
      let blank : trim value ≡ [] = is_empty-true (trim value) e in
      let refused : normalize_sandbox_id value ≡ none =
        (normalize_sandbox_id-none_iff value).1 (rw blank tt) in
      absurd (let z : none ≡ some name = sym refused ∙ named in cc)
  | inr e ↦ e
]

-- The lookup of a volume by a text with a name.
find_volume-named :
    (value name : Text) (db : Db)
    → normalize_sandbox_id value ≡ some name
    → find_volume_by_id_or_name value db ≡ (ok (find? (answers_to value name) db.volumes), db)
unfolding find_volume_by_id_or_name find_volume normalize_name normalized after when◌then◌else◌
find_volume-named value name db named = rw (name_shown value name named, named) refl

-- The first row is found under its name.
find_volume-first :
    (value : Text) (v : VolumeEntity) (db db' : Db)
    → normalize_sandbox_id value ≡ some v.name
    → db' ≡ record db { volumes = v ∷ db.volumes }
    → find_volume_by_id_or_name value db' ≡ (ok (some v), db')
find_volume-first value v db db' named added =
    let head : find? (answers_to value v.name) (v ∷ db.volumes) ≡ some v =
      let same = text_eq_refl v.name in ground (arith, same) in
    find_volume-named value v.name db' named ∙ rw (added, head) refl

module _ {W : Type 0} (b : Backend W) (raw : Text) (quota_mib : Option ℕ) where
  -- The row is saved and the backend called.
  abbrev finish : VolumeEntity → Service W → Outcome VolumeEntity × Service W
  finish v = do
    volume ← on_db (save_volume v)
    (catch (on_world (b.ensure_volume volume.backend_name volume.quota_mib))
        λ e. modify_db (delete_volume volume) >> throw e)
    pure volume

  settle :
      (v : VolumeEntity) (s : Service W) (db : Db) (p : Outcome (Unit {0}) × W)
      → normalize_sandbox_id raw ≡ some v.name
      → v.quota_mib ≡ quota_mib
      → find? (answers_to v.name v.name) db.volumes ≡ none
      → has_id v.id db.volumes ≡ false
      → IsAtomic raw quota_mib db (
          after
            (recover
              (with_world (record s { db = record db { volumes = v ∷ db.volumes } }) p)
              (λ e. modify_db (delete_volume v) >> throw e))
            (λ u. pure v))
  unfolding IsAtomic after recover delete_volume
  settle v s db (ok tt, w) named asked new fresh = (named, asked, new, fresh, refl)
  settle v s db (err e, w) named asked new fresh =
      let kept : keep (λ o. not (text_eq o.id v.id)) db.volumes ≡ db.volumes =
        keep_others v.id db.volumes fresh in
      rw (text_eq_refl v.id, kept) refl

  finish-IsAtomic :
      (v : VolumeEntity) (s : Service W)
      → normalize_sandbox_id raw ≡ some v.name
      → v.quota_mib ≡ quota_mib
      → find? (answers_to v.name v.name) s.db.volumes ≡ none
      → has_id v.id s.db.volumes ≡ false
      → IsAtomic raw quota_mib s.db (finish v s)
  unfolding IsAtomic save_volume after
  finish-IsAtomic v s named asked new fresh =
      elim (Bool-cases
        (any (λ o. text_eq v.name o.name || text_eq v.backend_name o.backend_name) s.db.volumes)) [
          | inl e ↦ rw e refl
          | inr e ↦ rw e (settle v s s.db _ named asked new fresh)
        ]

  named_IsAtomic :
      (config : AppConfig) (name : Text) (s : Service W)
      → normalize_sandbox_id raw ≡ some name
      → has_id (b.new_id s.world).0 s.db.volumes ≡ false
      → IsAtomic raw quota_mib s.db (create_volume b config raw quota_mib s)
  unfolding create_volume refuse_volume normalize_name normalized volume_backend_name after
      when◌then◌else◌ IsAtomic
  named_IsAtomic config name s named fresh =
      let shown = name_shown raw name named in
      let again = normalize_sandbox_id_idem raw name named in
      let found = find_volume-named name name s.db again in
      elim (Option-cases (find? (answers_to name name) s.db.volumes)) [
        | inl new ↦ elim (Option-cases (Identity.volume_name config.volume_name_prefix name)) [
          | inl e ↦ rw (shown, named, found, new, again, e) refl
          | inr (stored, e) ↦
              rw (shown, named, found, new, again, e)
                (finish-IsAtomic
                  (record {
                    id = (b.new_id s.world).0;
                    name = name;
                    backend_name = stored;
                    quota_mib = quota_mib;
                  })
                  (record s { world = (b.new_id s.world).1 }) named refl new fresh)
        ]
        | inr (v, taken) ↦ rw (shown, named, found, taken) refl
      ]

  -- Where the id that is drawn is the id of no volume: a creation that throws, at whatever step and
  -- whatever the backend does, leaves the tables as they were. One that returns adds one row in
  -- front, with the normal form of the text as its name and the given quota, where no volume had
  -- that name as its id or name.
  pub create_volume-IsAtomic :
      (config : AppConfig) (s : Service W)
      → has_id (b.new_id s.world).0 s.db.volumes ≡ false
      → IsAtomic raw quota_mib s.db (create_volume b config raw quota_mib s)
  unfolding create_volume refuse_volume normalize_name normalized find_volume_by_id_or_name
      find_volume volume_backend_name after when◌then◌else◌ IsAtomic
  create_volume-IsAtomic config s fresh = elim (Bool-cases (is_empty (trim raw))) [
    | inl e ↦ rw e refl
    | inr shown ↦ elim (Option-cases (normalize_sandbox_id raw)) [
      | inl e ↦ rw (shown, e) refl
      | inr (name, e) ↦ named_IsAtomic config name s e fresh
    ]
  ]

  undo :
      (v : VolumeEntity) (db : Db) (s t : Service W) (p : Outcome (Unit {0}) × W) (x : Text)
      → has_id v.id db.volumes ≡ false
      → s.db ≡ record db { volumes = v ∷ db.volumes }
      → after (with_world s p) (λ u. modify_db (delete_volume v) >> pure v.id) ≡ (ok x, t)
      → (x ≡ v.id) × (t.db ≡ db)
  unfolding after delete_volume
  undo v db s t (ok tt, w) x fresh added h =
      let (same, state) = ok_parts h in
      let kept = keep_others v.id db.volumes fresh in
      (sym same, sym (ap (λ u. u.db) state) ∙ rw (added, text_eq_refl v.id, kept) refl)
  undo v db s t (err e, w) x fresh added h = absurd (err_ne_ok h)

  -- Where a volume was created with an id that no volume had, and its removal under the same text
  -- returns, the removal answers its id, and the tables are as they were before the creation.
  pub create_volume-remove_volume :
      (config : AppConfig) (s s' t : Service W) (v : VolumeEntity) (x : Text)
      → has_id (b.new_id s.world).0 s.db.volumes ≡ false
      → create_volume b config raw quota_mib s ≡ (ok v, s')
      → remove_volume b raw s' ≡ (ok x, t)
      → (x ≡ v.id) × (t.db ≡ s.db)
  unfolding remove_volume require_volume after IsAtomic
  create_volume-remove_volume config s s' t v x fresh made removed =
      let atomic = create_volume-IsAtomic config s fresh in
      let parts : IsAtomic raw quota_mib s.db (ok v, s') = rw made at atomic in
      let (named, asked, new, unused, added) = parts in
      let found = find_volume-first raw v s.db s'.db named added in
      undo v s.db s' t _ x unused added (rw found at removed)
