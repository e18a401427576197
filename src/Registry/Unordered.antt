-- ===== src/Registry/Unordered.antt =====
-- The table of leases without an order of its rows, and `leasePorts` on it.
use mathlib.Core.Quot
use mathlib.Core.Quot.{Quot, Quot-set}
use mathlib.Core.List.Permᴰ
use mathlib.Core.List.{Permᴰ, append-nil}
use mathlib.Core.Bool.{Bool-set}
use microsanbox_cloud.Prelude.{
  ◌≡◌, refl, sym, ap, ap₂, subst, ◌∙◌, ℕ, Bool, not, ◌||◌, List, [], ◌∷◌, ◌++◌, map, Text, leb,
  if◌then◌else◌, keep, any, length, take, text_eq, Bool-cases, inl, inr,
}
use microsanbox_cloud.Effects.{Outcome, ok, err, no_free_ports}
use microsanbox_cloud.Database.{Db, PortLeaseEntity}
use microsanbox_cloud.Config.{AppConfig}
use microsanbox_cloud.Registry.{is_leased, lease_row, lease_ports, on_port}
use microsanbox_cloud.Registry.Ports.{range, range_size, available}
use microsanbox_cloud.Registry.Leases.{others, lease_ports_lem}

any_swap :
    {A : Type 0} (p : A → Bool) (x y : A) (xs : List A) → any p (x ∷ y ∷ xs) ≡ any p (y ∷ x ∷ xs)
any_swap p x y xs = elim (Bool-cases (p x)) [
  | inl e ↦ elim (Bool-cases (p y)) [ inl f ↦ rw (e, f) refl | inr f ↦ rw (e, f) refl ]
  | inr e ↦ rw e refl
]

any-Perm : {A : Type 0} (p : A → Bool) (xs ys : List A) → Permᴰ xs ys → any p xs ≡ any p ys
any-Perm p _ _ Permᴰ.nil = refl
any-Perm p (x ∷ xs) (y ∷ ys) (Permᴰ.cons e h) = rw (e, any-Perm p xs ys h) refl
any-Perm p (x ∷ y ∷ xs) (u ∷ v ∷ _) (Permᴰ.swap e f) =
    any_swap p x y xs ∙ ap₂ (λ a b. any p (a ∷ b ∷ xs)) f e
any-Perm p xs ys (Permᴰ.trans {l₂ = zs} h k) = any-Perm p xs zs h ∙ any-Perm p zs ys k

keep_swap :
    {A : Type 0} (p : A → Bool) (x y : A) (xs : List A)
    → Permᴰ (keep p (x ∷ y ∷ xs)) (keep p (y ∷ x ∷ xs))
keep_swap p x y xs = elim (Bool-cases (p x)) [
  | inl e ↦ elim (Bool-cases (p y)) [
    | inl f ↦ rw (e, f) (Permᴰ.swap refl refl)
    | inr f ↦ rw (e, f) (Permᴰ.refl _)
  ]
  | inr e ↦ rw e (Permᴰ.refl _)
]

keep-Perm :
    {A : Type 0} (p : A → Bool) (xs ys : List A) → Permᴰ xs ys → Permᴰ (keep p xs) (keep p ys)
keep-Perm p _ _ Permᴰ.nil = Permᴰ.nil
keep-Perm p (x ∷ xs) (y ∷ ys) (Permᴰ.cons e h) = elim (Bool-cases (p x)) [
  | inl i ↦ rw (i, rw e at i) (Permᴰ.cons e (keep-Perm p xs ys h))
  | inr o ↦ rw (o, rw e at o) (keep-Perm p xs ys h)
]
keep-Perm p (x ∷ y ∷ xs) (u ∷ v ∷ _) (Permᴰ.swap e f) =
    subst (λ a. Permᴰ (keep p (x ∷ y ∷ xs)) (keep p (a ∷ v ∷ xs))) f
      (subst (λ b. Permᴰ (keep p (x ∷ y ∷ xs)) (keep p (y ∷ b ∷ xs))) e (keep_swap p x y xs))
keep-Perm p xs ys (Permᴰ.trans {l₂ = zs} h k) =
    Permᴰ.trans (keep-Perm p xs zs h) (keep-Perm p zs ys k)

-- The rows of the table, in any order.
abbrev pub LeaseTable : Type 0
LeaseTable = Quot (Permᴰ {A = PortLeaseEntity})

abbrev pub table_of : Db → LeaseTable
table_of db = Quot.mk db.leases

is_taken : ℕ → LeaseTable → Bool
unfolding is_leased
is_taken port = Quot.lift Bool-set (is_leased port) (λ xs ys h. any-Perm (on_port port) xs ys h)

add_lease : PortLeaseEntity → LeaseTable → LeaseTable
add_lease row =
    Quot.lift Quot-set (λ rows. Quot.mk (row ∷ rows)) (λ xs ys h. Quot.sound (Permᴰ.cons refl h))

add_leases : Text → List ℕ → LeaseTable → LeaseTable
unfolding add_lease
add_leases rid [] t = t
add_leases rid (port ∷ ports) t = add_leases rid ports (add_lease (lease_row rid port) t)

without : Text → LeaseTable → LeaseTable
without rid =
    Quot.lift Quot-set (λ rows. Quot.mk (others rid rows))
      (λ xs ys h. Quot.sound (keep-Perm (λ l. not (text_eq l.runtime_id rid)) xs ys h))

-- The ports of the range that are not taken, and whose lease is not refused.
open_ports : AppConfig → (ℕ → Bool) → LeaseTable → List ℕ
unfolding is_taken
open_ports config refuses t =
    keep (λ port. not (is_taken port t || refuses port))
      (range (range_size config) config.port_range_start)

-- The first open ports are leased to the runtime, or else its leases are taken back.
pub lease_open : AppConfig → (ℕ → Bool) → Text → ℕ → LeaseTable → Outcome (List ℕ) × LeaseTable
unfolding open_ports add_leases without
lease_open config refuses rid count t =
    let ports = open_ports config refuses t in
    if leb count (length ports)
    then (ok (take count ports), add_leases rid (take count ports) t)
    else (err no_free_ports, without rid t)

add_leases_lem :
    (rid : Text) (ports : List ℕ) (rows : List PortLeaseEntity)
    → add_leases rid ports (Quot.mk rows) ≡ Quot.mk (rows ++ map (lease_row rid) ports)
unfolding add_leases add_lease
add_leases_lem rid [] rows = ap Quot.mk (sym (append-nil rows))
add_leases_lem rid (port ∷ ports) rows =
    add_leases_lem rid ports (lease_row rid port ∷ rows)
    ∙ Quot.sound (Permᴰ.symm (Permᴰ.middle (lease_row rid port) rows (map (lease_row rid) ports)))

-- What `leasePorts` answers, and the leases that it leaves, do not depend on the order of the rows:
-- it leases the first open ports of the table to the runtime, and where too few are open it throws
-- and leaves the table without the runtime's leases.
pub lease_ports-lease_open :
    (config : AppConfig) (refuses : ℕ → Bool) (rid : Text) (count : ℕ) (db : Db)
    → (
      (lease_ports config refuses rid count db).0,
      table_of (lease_ports config refuses rid count db).1,
    )
      ≡ lease_open config refuses rid count (table_of db)
unfolding lease_open open_ports is_taken without
lease_ports-lease_open config refuses rid count db =
    elim (Bool-cases (leb count (length (available config refuses db.leases)))) [
      | inl e ↦
          rw (lease_ports_lem config refuses rid count db, e)
            (ap (λ t. (ok (take count (available config refuses db.leases)), t))
              (sym
                (add_leases_lem rid (take count (available config refuses db.leases)) db.leases)))
      | inr e ↦ rw (lease_ports_lem config refuses rid count db, e) refl
    ]
