-- ===== src/Control/Leaks.antt =====
-- How many leases a new sandbox takes.
use microsanbox_cloud.Prelude.{
  ◌≡◌, refl, sym, ◌∙◌, ap, ℕ, suc, ◌+◌, ◌*◌, List, [], ◌∷◌, map, Option, Text, arith, length,
  length-append, Bool-cases, inl, inr, any,
}
use microsanbox_cloud.Effects.{
  Outcome, ok, err, throw, ◌>>◌, after, recover, after-eq-ok, ok_parts, err_ne_ok, when◌then◌else◌,
}
use microsanbox_cloud.Config.{AppConfig}
use microsanbox_cloud.Database.{RuntimeEntity, RuntimePortBindingRecord}
use microsanbox_cloud.Registry.{lease_row, save_runtime, delete_runtime, clash, sandbox_name}
use microsanbox_cloud.Registry.Exclusive.{lease_ports-IsGranted}
use microsanbox_cloud.Control.Types.{Service, Backend, RuntimeSpec}
use microsanbox_cloud.Control.Monad.{on_db, modify_db}
use microsanbox_cloud.Control.Ports.{lease, assign_leased, assign_ports}
use microsanbox_cloud.Control.Rows.{new_row}
use microsanbox_cloud.Control.Lookup.{or_throw-eq-ok}
use microsanbox_cloud.Control.Provision.{create_row, lease_or_delete}

length-map {ℓ κ} :
    {A : Type ℓ} {B : Type κ} (f : A → B) (xs : List A) → length (map f xs) ≡ length xs
length-map f [] = refl
length-map f (x ∷ xs) = ap suc (length-map f xs)

length-assign_leased :
    (leased : List ℕ) (ports : List RuntimePortBindingRecord)
    → length (assign_leased leased ports) ≡ length ports
unfolding assign_leased
length-assign_leased leased [] = refl
length-assign_leased [] (p ∷ ports) = refl
length-assign_leased (h ∷ leased) (p ∷ ports) = ap suc (length-assign_leased leased ports)

-- The number of leases in the tables.
abbrev leases_of : {W : Type 0} → Service W → ℕ
leases_of s = length s.db.leases

-- A handler that takes the row back and throws again does not return.
rethrown-eq-ok :
    {W A : Type 0} (r : RuntimeEntity) (m : Outcome A × Service W) {a : A} {s' : Service W}
    → recover m (λ e. modify_db (delete_runtime r) >> throw e) ≡ (ok a, s')
    → m ≡ (ok a, s')
unfolding recover after
rethrown-eq-ok r (ok a, t) h = h
rethrown-eq-ok r (err e, t) h = absurd (err_ne_ok h)

module _ {W : Type 0} (config : AppConfig) (b : Backend W) where
  lease-length :
      (rid : Text) (count : ℕ) (leased : List ℕ) (s s' : Service W)
      → lease config b rid count s ≡ (ok leased, s')
      → leases_of s' ≡ leases_of s + count
  unfolding lease
  lease-length rid count leased s s' h =
      let g =
        lease_ports-IsGranted config (b.refuses s.world) rid count s.db leased s'.db
          (λ i. ((h i).0, (h i).1.db)) in
      rw
        (
          g.recorded,
          length-append s.db.leases (map (lease_row rid) leased),
          length-map (lease_row rid) leased,
          g.number,
        )
        refl

  lease_or_delete-length :
      (r : RuntimeEntity) (count : ℕ) (leased : List ℕ) (s s' : Service W)
      → lease_or_delete config b r count s ≡ (ok leased, s')
      → leases_of s' ≡ leases_of s + count
  unfolding lease_or_delete
  lease_or_delete-length r count leased s s' h =
      lease-length r.id count leased s s' (rethrown-eq-ok r (lease config b r.id count s) h)

  save_runtime-leases :
      (r o : RuntimeEntity) (s s' : Service W)
      → on_db (save_runtime r) s ≡ (ok o, s')
      → (r ≡ o) × (leases_of s' ≡ leases_of s)
  unfolding save_runtime
  save_runtime-leases r o s s' h = elim (Bool-cases (any (clash r) s.db.runtimes)) [
    | inl e ↦ absurd (err_ne_ok (rw e at h))
    | inr e ↦ let (same, state) = ok_parts (rw e at h) in (same, ap (λ t. leases_of t) (sym state))
  ]

  assign_ports-length :
      (r : RuntimeEntity) (ports chosen : List RuntimePortBindingRecord) (s s' : Service W)
      → r.port_bindings ≡ []
      → assign_ports config b r ports s ≡ (ok chosen, s')
      → leases_of s' ≡ leases_of s + length ports
  unfolding assign_ports when◌then◌else◌
  assign_ports-length r ports chosen s s' none_yet h =
      let (leased, s1, m, h1) =
        after-eq-ok (lease config b r.id (length ports) s) _ (rw none_yet at h) in
      let (answer, state) = ok_parts h1 in
      rw (← state) (lease-length r.id (length ports) leased s s1 m)

  create_row-length :
      (sandbox_id : Text) (name : Option Text) (spec : RuntimeSpec)
      (primary : RuntimePortBindingRecord) (r : RuntimeEntity)
      (ports : List RuntimePortBindingRecord) (s s' : Service W)
      → create_row config b sandbox_id name spec primary s ≡ (ok (r, ports), s')
      → (r.port_bindings ≡ [])
        × (length ports ≡ length spec.ports)
        × (leases_of s' ≡ leases_of s + length spec.ports)
  unfolding create_row new_row sandbox_name
  create_row-length sandbox_id name spec primary r ports s s' h =
      let (token, s1, m1, h1) = after-eq-ok _ _ h in
      let (backend_name, s2, m2, h2) = after-eq-ok _ _ h1 in
      let (time, s3, m3, h3) = after-eq-ok _ _ h2 in
      let (id, s4, m4, h4) = after-eq-ok _ _ h3 in
      let (row, s5, m5, h5) = after-eq-ok _ _ h4 in
      let (leased, s6, m6, h6) =
        after-eq-ok (lease_or_delete config b row (length spec.ports) s5) _ h5 in
      let (answer, state) = ok_parts h6 in
      let (saved, kept) = save_runtime-leases _ row s4 s5 m5 in
      let named = (or_throw-eq-ok _ _ (λ i. ((m2 i).0, (m2 i).1.db))).1 in
      let before : leases_of s5 ≡ leases_of s =
        kept
        ∙ sym (
            ap (λ p. leases_of p.1) m1
            ∙ ap (λ db. length db.leases) named
            ∙ ap (λ p. leases_of p.1) m3
            ∙ ap (λ p. leases_of p.1) m4) in
      (
        ap (λ p. p.0.port_bindings) (sym answer) ∙ ap (λ x. x.port_bindings) (sym saved),
        ap (λ p. length p.1) (sym answer) ∙ length-assign_leased leased spec.ports,
        rw (← state, ← before) (lease_or_delete-length row (length spec.ports) leased s5 s6 m6),
      )

  -- Where both the making of the row of a new sandbox and the assignment of its host ports return,
  -- there are two more leases for each port of the specification.
  pub fresh-leases_twice :
      (sandbox_id : Text) (name : Option Text) (spec : RuntimeSpec)
      (primary : RuntimePortBindingRecord) (r : RuntimeEntity)
      (ports chosen : List RuntimePortBindingRecord) (s s1 s2 : Service W)
      → create_row config b sandbox_id name spec primary s ≡ (ok (r, ports), s1)
      → assign_ports config b r ports s1 ≡ (ok chosen, s2)
      → length s2.db.leases ≡ length s.db.leases + 2 * length spec.ports
  fresh-leases_twice sandbox_id name spec primary r ports chosen s s1 s2 h k =
      let (none_yet, number, made) =
        create_row-length sandbox_id name spec primary r ports s s1 h in
      let again = assign_ports-length r ports chosen s1 s2 none_yet k in
      omega (arith, number, made, again)
