-- ===== src/Registry/Leasing.antt =====
-- The loop of `leasePorts` against the list of the free ports.
use microsanbox_cloud.Prelude.{
  ℕ, zero, suc, ◌+◌, ◌-◌, ◌<◌, ◌≡◌, refl, ap, ◌∙◌, Bool, true, false, List, [], ◌∷◌, ◌++◌, map,
  Text, arith, ltb, inl, inr, Bool-cases, length, length-append, take,
}
use mathlib.Core.List.{append-nil, append_assoc}
use microsanbox_cloud.Database.{PortLeaseEntity}
use microsanbox_cloud.Registry.{lease_row, try_port, lease_loop}
use microsanbox_cloud.Registry.Ports.{free, is_free, free-new}

-- The ports that the loop still takes.
abbrev taken : (ℕ → Bool) → ℕ → List ℕ → List PortLeaseEntity → ℕ → ℕ → List ℕ
taken refuses count ports rows n port = take (count - length ports) (free refuses rows n port)

module _ (refuses : ℕ → Bool) (rid : Text) (count : ℕ) where
  loop_end :
      (ports : List ℕ) (rows : List PortLeaseEntity) (ps : List ℕ) (m : ℕ)
      → m ≡ 0
      → ◌≡◌ {A = List ℕ × List PortLeaseEntity}
          (ports, rows)
          (ports ++ take m ps, rows ++ map (lease_row rid) (take m ps))
  loop_end ports rows ps m e = rw (e, append-nil ports, append-nil rows)

  try_free :
      (port : ℕ) (ports : List ℕ) (rows : List PortLeaseEntity)
      → is_free refuses rows port ≡ true
      → try_port refuses rid port (ports, rows)
        ≡ (ports ++ port ∷ [], rows ++ lease_row rid port ∷ [])
  unfolding try_port
  try_free port ports rows f = ground arith

  try_taken :
      (port : ℕ) (ports : List ℕ) (rows : List PortLeaseEntity)
      → is_free refuses rows port ≡ false
      → try_port refuses rid port (ports, rows) ≡ (ports, rows)
  unfolding try_port
  try_taken port ports rows f = ground arith

  -- A free port is taken first, and the rest of the loop sees its lease.
  more :
      (ports : List ℕ) (rows : List PortLeaseEntity) (n port : ℕ)
      → length ports < count
      → is_free refuses rows port ≡ true
      → ◌≡◌ {A = List ℕ × List PortLeaseEntity}
          (
            (ports ++ port ∷ [])
                ++ taken refuses count
                    (ports ++ port ∷ [])
                    (rows ++ lease_row rid port ∷ [])
                    n
                    (port + 1),
            (rows ++ lease_row rid port ∷ [])
                ++ map (lease_row rid) (
                    taken refuses count
                      (ports ++ port ∷ [])
                      (rows ++ lease_row rid port ∷ [])
                      n
                      (port + 1)),
          )
          (
            ports ++ taken refuses count ports rows (suc n) port,
            rows ++ map (lease_row rid) (taken refuses count ports rows (suc n) port),
          )
  more ports rows n port h f =
      let k : ℕ = count - length (ports ++ port ∷ []) in
      let left : count - length ports ≡ suc k = omega (arith, length-append ports (port ∷ [])) in
      rw (
        free-new refuses rows rid port n (port + 1) (omega arith),
        f,
        left,
        append_assoc ports (port ∷ []),
        append_assoc rows (lease_row rid port ∷ []),
      )

  lease_loop_lem :
      (n port : ℕ) (ports : List ℕ) (rows : List PortLeaseEntity)
      → lease_loop refuses rid count n port (ports, rows) ≡ (
        ports ++ taken refuses count ports rows n port,
        rows ++ map (lease_row rid) (taken refuses count ports rows n port),
      )
  unfolding lease_loop try_port
  lease_loop_lem zero port ports rows =
      rw (take_nil (count - length ports), append-nil ports, append-nil rows)
    where
      take_nil : (m : ℕ) → take {A = ℕ} m [] ≡ []
      take_nil zero = refl
      take_nil (suc m) = refl
  lease_loop_lem (suc n) port ports rows = elim (Bool-cases (ltb (length ports) count)) [
    | inr e ↦ rw (e, lease_loop) (loop_end ports rows _ _ (ground arith))
    | inl e ↦ elim (Bool-cases (is_free refuses rows port)) [
      | inl f ↦
          rw (e, lease_loop)
            (ap (lease_loop refuses rid count n (port + 1)) (try_free port ports rows f)
              ∙ lease_loop_lem n (port + 1) (ports ++ port ∷ []) (rows ++ lease_row rid port ∷ [])
              ∙ more ports rows n port (ground arith) f)
      | inr f ↦
          rw (e, lease_loop, f)
            (ap (lease_loop refuses rid count n (port + 1)) (try_taken port ports rows f)
              ∙ lease_loop_lem n (port + 1) ports rows)
    ]
  ]

  pub lease_loop_from_none :
      (n port : ℕ) (rows : List PortLeaseEntity)
      → lease_loop refuses rid count n port ([], rows) ≡ (
        take count (free refuses rows n port),
        rows ++ map (lease_row rid) (take count (free refuses rows n port)),
      )
  lease_loop_from_none n port rows =
      lease_loop_lem n port [] rows
      ∙ ap
          (λ (m : ℕ). (
            take m (free refuses rows n port),
            rows ++ map (lease_row rid) (take m (free refuses rows n port)),
          ))
          (omega arith)
