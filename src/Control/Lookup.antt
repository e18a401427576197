-- ===== src/Control/Lookup.antt =====
-- The lookup of a sandbox by its id or name, and the requests that only look at it.
use microsanbox_cloud.Prelude.{
  ◌≡◌, refl, inl, inr, ap, Bool, true, false, ◌||◌, Option, none, some, Text, find?, text_eq,
  option_text_eq, Option-cases,
}
use microsanbox_cloud.Identity.{normalize_sandbox_id}
use microsanbox_cloud.Effects.{ok, Error, after, ok_parts, err_ne_ok, or_throw, guard}
use microsanbox_cloud.Database.{Db, RuntimeEntity}
use microsanbox_cloud.Registry.{find_runtime_by_sandbox_id_or_name, normalized}
use microsanbox_cloud.Control.Types.{Service}
use microsanbox_cloud.Control.Spec.{and_then}
use microsanbox_cloud.Control.Lifecycle.{require_runtime}

-- The row has the key as its sandbox id or as its name.
abbrev pub is_called : Text → RuntimeEntity → Bool
is_called key r = text_eq r.sandbox_id key || option_text_eq r.name (some key)

-- The first row whose sandbox id or name is the normalised text.
abbrev pub lookup : Text → Db → Option RuntimeEntity
lookup value db = and_then (normalize_sandbox_id value) λ key. find? (is_called key) db.runtimes

-- A guard that returned changed nothing.
pub guard-eq-ok :
    {S : Type 0} (t : Bool) (e : Error) {s s' : S} {u : Unit {0}}
    → guard t e s ≡ (ok u, s')
    → (t ≡ true) × (s ≡ s')
guard-eq-ok true e h = (refl, (ok_parts h).1)
guard-eq-ok false e h = absurd (err_ne_ok h)

pub or_throw-eq-ok :
    {S A : Type 0} (o : Option A) (e : Error) {s s' : S} {a : A}
    → or_throw o e s ≡ (ok a, s')
    → (o ≡ some a) × (s ≡ s')
or_throw-eq-ok none e h = absurd (err_ne_ok h)
or_throw-eq-ok (some a) e h = let (p, q) = ok_parts h in (ap some p, q)

module _ {W : Type 0} where
  pub require_runtime-eq-ok :
      (value : Text) (s s' : Service W) (r : RuntimeEntity)
      → require_runtime value s ≡ (ok r, s')
      → (lookup value s.db ≡ some r) × (s ≡ s')
  unfolding require_runtime find_runtime_by_sandbox_id_or_name normalized after
  require_runtime-eq-ok value s s' r h = elim (Option-cases (normalize_sandbox_id value)) [
    | inl e ↦ absurd (err_ne_ok (rw e at h))
    | inr (key, e) ↦ rw e (or_throw-eq-ok _ _ (rw e at h))
  ]

  pub require_runtime_of_lookup :
      (value : Text) (s : Service W) (r : RuntimeEntity)
      → lookup value s.db ≡ some r
      → require_runtime value s ≡ (ok r, s)
  unfolding require_runtime find_runtime_by_sandbox_id_or_name normalized after
  require_runtime_of_lookup value s r h = elim (Option-cases (normalize_sandbox_id value)) [
    | inl e ↦ absurd (let z : none ≡ some r = rw e at h in cc)
    | inr (key, e) ↦
        let found : find? (is_called key) s.db.runtimes ≡ some r = rw e at h in rw (e, found) refl
  ]
