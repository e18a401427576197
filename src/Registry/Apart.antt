-- ===== src/Registry/Apart.antt =====
-- The leases of the registry, no two of the same port.
use microsanbox_cloud.Prelude.{
  ℕ, zero, suc, ◌+◌, ◌<◌, ◌≡◌, Bool, false, ◌&&◌, List, [], ◌∷◌, ◌++◌, map, Text, arith, ◌==◌, keep,
  inl, inr, Bool-cases, text_eq, take, All, All-append, All-keep,
}
use microsanbox_cloud.Database.{PortLeaseEntity}
use microsanbox_cloud.Registry.{is_leased, lease_row}
use microsanbox_cloud.Registry.Ports.{free, is_free, Rising}

-- The unique columns of the leases: the host and the port.
abbrev pub same_port : PortLeaseEntity → PortLeaseEntity → Bool
same_port l m = text_eq l.runtime_host_id m.runtime_host_id && l.port == m.port

abbrev pub Exclusive : List PortLeaseEntity → Type 0
Exclusive [] = Unit
Exclusive (l ∷ rows) = All (λ m. same_port l m ≡ false) rows × Exclusive rows

pub Exclusive-keep :
    (q : PortLeaseEntity → Bool) (rows : List PortLeaseEntity)
    → Exclusive rows
    → Exclusive (keep q rows)
Exclusive-keep q [] h = tt
Exclusive-keep q (l ∷ rows) (x, h) = elim (Bool-cases (q l)) [
  | inl e ↦ rw e (All-keep (λ m. same_port l m ≡ false) q rows x, Exclusive-keep q rows h)
  | inr e ↦ rw e (Exclusive-keep q rows h)
]

All-map {κ} :
    (rid : Text) (P : PortLeaseEntity → Type κ) (ps : List ℕ)
    → All (λ p. P (lease_row rid p)) ps
    → All P (map (lease_row rid) ps)
All-map rid P [] h = tt
All-map rid P (p ∷ ps) (x, h) = (x, All-map rid P ps h)

above :
    (rid : Text) (p low : ℕ) (ps : List ℕ)
    → p < low
    → Rising low ps
    → All (λ q. same_port (lease_row rid p) (lease_row rid q) ≡ false) ps
unfolding lease_row
above rid p low [] h r = tt
above rid p low (q ∷ ps) h r = (ground arith, above rid p (q + 1) ps (omega arith) r.1)

Exclusive-own :
    (rid : Text) (low : ℕ) (ps : List ℕ) → Rising low ps → Exclusive (map (lease_row rid) ps)
Exclusive-own rid low [] r = tt
Exclusive-own rid low (p ∷ ps) r =
    (All-map rid _ ps (above rid p (p + 1) ps (omega arith) r.1), Exclusive-own rid (p + 1) ps r.1)

apart :
    (rid : Text) (l : PortLeaseEntity) (rows : List PortLeaseEntity) (p : ℕ)
    → is_leased p (l ∷ rows) ≡ false
    → (same_port l (lease_row rid p) ≡ false) × (is_leased p rows ≡ false)
unfolding is_leased lease_row
apart rid l rows p h = ground arith

All-apart :
    (rid : Text) (l : PortLeaseEntity) (rows : List PortLeaseEntity) (ps : List ℕ)
    → All (λ p. is_leased p (l ∷ rows) ≡ false) ps
    → All (λ p. same_port l (lease_row rid p) ≡ false) ps × All (λ p. is_leased p rows ≡ false) ps
All-apart rid l rows [] h = (tt, tt)
All-apart rid l rows (p ∷ ps) (x, h) =
    let (a, b) = apart rid l rows p x in
    let (here, later) = All-apart rid l rows ps h in ((a, here), (b, later))

pub Exclusive-append :
    (rid : Text) (low : ℕ) (rows : List PortLeaseEntity) (ps : List ℕ)
    → Exclusive rows
    → Rising low ps
    → All (λ p. is_leased p rows ≡ false) ps
    → Exclusive (rows ++ map (lease_row rid) ps)
Exclusive-append rid low [] ps x r h = Exclusive-own rid low ps r
Exclusive-append rid low (l ∷ rows) ps (y, x) r h =
    let (a, b) = All-apart rid l rows ps h in
    (
      All-append (λ m. same_port l m ≡ false) rows _ y (All-map rid _ ps a),
      Exclusive-append rid low rows ps x r b,
    )

pub Rising-take : (n low : ℕ) (ps : List ℕ) → Rising low ps → Rising low (take n ps)
Rising-take zero low ps r = tt
Rising-take (suc n) low [] r = tt
Rising-take (suc n) low (p ∷ ps) r = (r.0, Rising-take n (p + 1) ps r.1)

pub free-unleased :
    (refuses : ℕ → Bool) (rows : List PortLeaseEntity) (n port : ℕ)
    → All (λ p. is_leased p rows ≡ false) (free refuses rows n port)
free-unleased refuses rows zero port = tt
free-unleased refuses rows (suc n) port = elim (Bool-cases (is_free refuses rows port)) [
  | inl e ↦ rw e (ground arith, free-unleased refuses rows n (port + 1))
  | inr e ↦ rw e (free-unleased refuses rows n (port + 1))
]
