-- ===== src/Registry/Ports.antt =====
-- The ports of the configured range that a request can lease.
use microsanbox_cloud.Prelude.{
  ℕ, zero, suc, ◌+◌, ◌-◌, ◌<◌, ◌≤◌, ◌≡◌, refl, Bool, not, ◌||◌, List, [], ◌∷◌, ◌++◌, Text, arith,
  ◌==◌, keep, All, inl, inr, Bool-cases, text_eq_refl,
}
use microsanbox_cloud.Database.{PortLeaseEntity}
use microsanbox_cloud.Config.{AppConfig}
use microsanbox_cloud.Registry.{is_leased, on_port, lease_row, local_host_id}

-- The numbers from `port` on, `n` of them.
abbrev pub range : ℕ → ℕ → List ℕ
range zero port = []
range (suc n) port = port ∷ range n (port + 1)

abbrev pub is_free : (ℕ → Bool) → List PortLeaseEntity → ℕ → Bool
is_free refuses rows port = not (is_leased port rows || refuses port)

abbrev pub free : (ℕ → Bool) → List PortLeaseEntity → ℕ → ℕ → List ℕ
free refuses rows n port = keep (is_free refuses rows) (range n port)

abbrev pub range_size : AppConfig → ℕ
range_size config = config.port_range_end + 1 - config.port_range_start

-- The ports from the start to the end of the configured range that are not leased, and whose
-- lease the database accepts.
abbrev pub available : AppConfig → (ℕ → Bool) → List PortLeaseEntity → List ℕ
available config refuses rows = free refuses rows (range_size config) config.port_range_start

pub on_port-lease_row : (q : ℕ) (rid : Text) (p : ℕ) → on_port q (lease_row rid p) ≡ (p == q)
unfolding on_port lease_row
on_port-lease_row q rid p = rw (text_eq_refl local_host_id)

pub is_leased-append :
    (q : ℕ) (rows more : List PortLeaseEntity)
    → is_leased q (rows ++ more) ≡ (is_leased q rows || is_leased q more)
unfolding is_leased
is_leased-append q [] more = refl
is_leased-append q (l ∷ rows) more = ground (arith, is_leased-append q rows more)

pub is_leased-new :
    (q : ℕ) (rid : Text) (p : ℕ) (rows : List PortLeaseEntity)
    → is_leased q (rows ++ lease_row rid p ∷ []) ≡ (is_leased q rows || (p == q))
unfolding is_leased
is_leased-new q rid p rows =
    ground (arith, is_leased-append q rows (lease_row rid p ∷ []), on_port-lease_row q rid p)

-- A lease below the range does not matter in it.
pub free-new :
    (refuses : ℕ → Bool) (rows : List PortLeaseEntity) (rid : Text) (p n port : ℕ)
    → p < port
    → free refuses (rows ++ lease_row rid p ∷ []) n port ≡ free refuses rows n port
free-new refuses rows rid p zero port h = refl
free-new refuses rows rid p (suc n) port h =
    ground
      (arith, is_leased-new port rid p rows, free-new refuses rows rid p n (port + 1) (omega arith))

-- Strictly rising, from `low` on.
abbrev pub Rising : ℕ → List ℕ → Type 0
Rising low [] = Unit
Rising low (p ∷ ps) = (low ≤ p) × Rising (p + 1) ps

pub Rising-mono : (low high : ℕ) (ps : List ℕ) → low ≤ high → Rising high ps → Rising low ps
Rising-mono low high [] h r = tt
Rising-mono low high (p ∷ ps) h r = (omega arith, r.1)

pub Rising-keep : (q : ℕ → Bool) (n port : ℕ) → Rising port (keep q (range n port))
Rising-keep q zero port = tt
Rising-keep q (suc n) port = elim (Bool-cases (q port)) [
  | inl e ↦ rw e (omega arith, Rising-keep q n (port + 1))
  | inr e ↦ rw e (Rising-mono port (port + 1) _ (omega arith) (Rising-keep q n (port + 1)))
]

pub All-range :
    (n port limit : ℕ) → port + n ≤ limit → All (λ p. (port ≤ p) × (p < limit)) (range n port)
All-range n port limit h = go n port port limit (omega arith) h
  where
    go :
        (n low port limit : ℕ)
        → low ≤ port
        → port + n ≤ limit
        → All (λ p. (low ≤ p) × (p < limit)) (range n port)
    go zero low port limit h k = tt
    go (suc n) low port limit h k =
        ((h, omega arith), go n low (port + 1) limit (omega arith) (omega arith))
