-- ===== src/Registry/Exclusive.antt =====
-- No port is leased twice.
use microsanbox_cloud.Prelude.{
  ℕ, ◌+◌, ◌<◌, ◌≤◌, ◌≡◌, refl, sym, ◌∙◌, Bool, true, false, not, ◌&&◌, List, [], ◌∷◌, ◌++◌, map,
  Text, arith, leb, keep, inl, inr, Bool-cases, text_eq, text_eq_refl, eq_of_text_eq, length,
  length-take, take, All, All-keep, All-take, any, subst, leb→le,
}
use microsanbox_cloud.Effects.{
  ok, err, no_free_ports, Error, ok_parts, err_parts, err_ne_ok, ok_ne_err,
}
use microsanbox_cloud.Database.{Db, PortLeaseEntity, RuntimeEntity}
use microsanbox_cloud.Config.{AppConfig}
use microsanbox_cloud.Registry.{
  is_leased, on_port, lease_row, lease_ports, release_ports, delete_runtime, local_host_id,
}
use microsanbox_cloud.Registry.Ports.{
  is_free, available, range_size, range, Rising, Rising-keep, All-range,
}
use microsanbox_cloud.Registry.Leases.{others, lease_ports_lem}
use microsanbox_cloud.Registry.Apart.{
  same_port, Exclusive, Exclusive-keep, Exclusive-append, Rising-take, free-unleased,
}

-- A call of `leasePorts` that returns.
pub record IsGranted (config : AppConfig) (rid : Text) (count : ℕ) (db : Db) (ports : List ℕ)
    (db' : Db) : Type 0 where
  pub number : length ports ≡ count
  pub rising : Rising config.port_range_start ports
  pub within : All (λ p. (config.port_range_start ≤ p) × (p ≤ config.port_range_end)) ports
  pub unleased : All (λ p. is_leased p db.leases ≡ false) ports
  pub recorded : db' ≡ record db { leases = db.leases ++ map (lease_row rid) ports }

in_range :
    (start end : ℕ) (ps : List ℕ)
    → All (λ p. (start ≤ p) × (p < end + 1)) ps
    → All (λ p. (start ≤ p) × (p ≤ end)) ps
in_range start end [] h = tt
in_range start end (p ∷ ps) (x, h) = ((x.0, omega arith), in_range start end ps h)

same_of_on_port :
    (p : ℕ) (l m : PortLeaseEntity)
    → on_port p l ≡ true
    → same_port l m ≡ false
    → on_port p m ≡ false
unfolding on_port
same_of_on_port p l m h k = ground (
  arith,
  eq_of_text_eq l.runtime_host_id local_host_id,
  eq_of_text_eq m.runtime_host_id local_host_id,
  text_eq_refl m.runtime_host_id,
)

unleased_of_apart :
    (p : ℕ) (l : PortLeaseEntity) (rows : List PortLeaseEntity)
    → on_port p l ≡ true
    → All (λ m. same_port l m ≡ false) rows
    → is_leased p rows ≡ false
unfolding is_leased
unleased_of_apart p l [] h x = refl
unleased_of_apart p l (m ∷ rows) h (y, x) =
    rw (same_of_on_port p l m h y) (unleased_of_apart p l rows h x)

unleased-keep :
    (p : ℕ) (q : PortLeaseEntity → Bool) (rows : List PortLeaseEntity)
    → is_leased p rows ≡ false
    → is_leased p (keep q rows) ≡ false
unfolding is_leased
unleased-keep p q [] h = refl
unleased-keep p q (l ∷ rows) h = ground (arith, unleased-keep p q rows)

-- A port that is leased by nobody is leased by no runtime.
absurd_any :
    (p : ℕ) (rid : Text) (rows : List PortLeaseEntity)
    → is_leased p rows ≡ false
    → any (λ l. on_port p l && text_eq l.runtime_id rid) rows ≡ false
unfolding is_leased
absurd_any p rid [] h = refl
absurd_any p rid (l ∷ rows) h = ground (arith, absurd_any p rid rows)

others_unleased :
    (rid : Text) (p : ℕ) (rows : List PortLeaseEntity)
    → Exclusive rows
    → any (λ l. on_port p l && text_eq l.runtime_id rid) rows ≡ true
    → is_leased p (others rid rows) ≡ false
unfolding is_leased
others_unleased rid p [] x h = refl
others_unleased rid p (l ∷ rows) (y, x) h = elim (Bool-cases (on_port p l)) [
  | inl e ↦ ground (
    arith,
    unleased-keep p (λ m. not (text_eq m.runtime_id rid)) rows (unleased_of_apart p l rows e y),
    absurd_any p rid rows (unleased_of_apart p l rows e y),
  )
  | inr e ↦ ground (arith, others_unleased rid p rows x)
]

module _ (config : AppConfig) (refuses : ℕ → Bool) (rid : Text) (count : ℕ) (db : Db) where
  abbrev spare : List ℕ
  spare = available config refuses db.leases

  range_within :
      All
        (λ p. (config.port_range_start ≤ p) × (p < config.port_range_end + 1))
        (range (range_size config) config.port_range_start)
  range_within = elim (Bool-cases (leb config.port_range_start (config.port_range_end + 1))) [
    | inl e ↦ All-range _ _ _ (ground arith)
    | inr e ↦ let z : range_size config ≡ 0 = ground arith in rw z tt
  ]

  chosen-IsGranted :
      count ≤ length spare
      → IsGranted config rid count db
          (take count spare)
          (record db { leases = db.leases ++ map (lease_row rid) (take count spare) })
  chosen-IsGranted h = record {
    number = omega (arith, length-take count spare);
    rising =
        Rising-take count _ spare
          (Rising-keep (is_free refuses db.leases) (range_size config) config.port_range_start);
    within =
        in_range _ _ _
          (All-take _ count spare (All-keep _ (is_free refuses db.leases) _ range_within));
    unleased = All-take _ count spare (free-unleased refuses db.leases _ _);
    recorded = refl;
  }

  -- Where `leasePorts` returns, it returns as many ports as were asked for, distinct and rising,
  -- within the configured range, none of them leased before, and it has added one lease of the
  -- runtime for each and changed nothing else.
  pub lease_ports-IsGranted :
      (ports : List ℕ) (db' : Db)
      → lease_ports config refuses rid count db ≡ (ok ports, db')
      → IsGranted config rid count db ports db'
  lease_ports-IsGranted ports db' h = elim (Bool-cases (leb count (length spare))) [
    | inl e ↦
        let (same, after) =
          ok_parts (rw e at (sym (lease_ports_lem config refuses rid count db) ∙ h)) in
        subst (λ ps. IsGranted config rid count db ps db') same
          (subst (IsGranted config rid count db (take count spare)) after
            (chosen-IsGranted (leb→le _ _ e)))
    | inr e ↦ absurd (err_ne_ok (rw e at (sym (lease_ports_lem config refuses rid count db) ∙ h)))
  ]

  -- Whether it returns or throws, `leasePorts` leaves no port leased twice.
  pub lease_ports-Exclusive :
      Exclusive db.leases → Exclusive (lease_ports config refuses rid count db).1.leases
  lease_ports-Exclusive x =
      rw (lease_ports_lem config refuses rid count db)
        (elim (Bool-cases (leb count (length spare))) [
          | inl e ↦
              let g = chosen-IsGranted (leb→le _ _ e) in
              rw e (Exclusive-append rid _ db.leases _ x g.rising g.unleased)
          | inr e ↦ rw e (Exclusive-keep _ db.leases x)
        ])

  -- Where `leasePorts` throws, a port that the runtime itself held before the call is leased by
  -- nobody after it.
  pub lease_ports-forgets :
      (p : ℕ) (e : Error) (db' : Db)
      → Exclusive db.leases
      → any (λ l. on_port p l && text_eq l.runtime_id rid) db.leases ≡ true
      → lease_ports config refuses rid count db ≡ (err e, db')
      → (e ≡ no_free_ports) × (is_leased p db'.leases ≡ false)
  lease_ports-forgets p e db' x held h = elim (Bool-cases (leb count (length spare))) [
    | inl f ↦ absurd (ok_ne_err (rw f at (sym (lease_ports_lem config refuses rid count db) ∙ h)))
    | inr f ↦
        let (same, after) =
          err_parts (rw f at (sym (lease_ports_lem config refuses rid count db) ∙ h)) in
        (sym same, rw (← after) (others_unleased rid p db.leases x held))
  ]

-- Nor do `releasePorts` and `deleteRuntime` leave a port leased twice.
pub release-Exclusive :
    (runtime : RuntimeEntity) (rid : Text) (db : Db)
    → Exclusive db.leases
    → Exclusive (release_ports rid db).leases × Exclusive (delete_runtime runtime db).leases
unfolding release_ports delete_runtime
release-Exclusive runtime rid db x = (Exclusive-keep _ db.leases x, Exclusive-keep _ db.leases x)
