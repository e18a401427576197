-- ===== src/Registry/Leases.antt =====
-- What `leasePorts`, `releasePorts` and `deleteRuntime` do to the leases.
use microsanbox_cloud.Prelude.{
  ℕ, ◌<◌, ◌≤◌, ◌≡◌, refl, Bool, true, false, not, List, [], ◌∷◌, ◌++◌, map, Text, arith, leb, ◌==◌,
  if◌then◌else◌, keep, inl, inr, Bool-cases, text_eq, text_eq_refl, length, length-take, take,
}
use mathlib.Core.List.{append-nil}
use microsanbox_cloud.Effects.{ok, err, no_free_ports}
use microsanbox_cloud.Database.{Db, PortLeaseEntity}
use microsanbox_cloud.Config.{AppConfig}
use microsanbox_cloud.Registry.{lease_row, lease_result, lease_ports}
use microsanbox_cloud.Registry.Ports.{available, range_size}
use microsanbox_cloud.Registry.Leasing.{lease_loop_from_none}

-- The leases that are not the runtime's.
abbrev pub others : Text → List PortLeaseEntity → List PortLeaseEntity
others rid = keep (λ l. not (text_eq l.runtime_id rid))

others-append :
    (rid : Text) (rows more : List PortLeaseEntity)
    → others rid (rows ++ more) ≡ others rid rows ++ others rid more
others-append rid [] more = refl
others-append rid (l ∷ rows) more = ground (arith, others-append rid rows more)

others-own : (rid : Text) (ps : List ℕ) → others rid (map (lease_row rid) ps) ≡ []
unfolding lease_row
others-own rid [] = refl
others-own rid (p ∷ ps) = rw (text_eq_refl rid) (others-own rid ps)

module _ (config : AppConfig) (refuses : ℕ → Bool) (rid : Text) (count : ℕ) (db : Db) where
  abbrev chosen : List ℕ
  chosen = take count (available config refuses db.leases)

  -- `leasePorts` leases the first `count` free ports of the configured range, in rising order,
  -- and adds one lease for each behind the others. Where fewer are free it throws, and every
  -- lease of the runtime is gone, also those that it held before the call.
  pub lease_ports_lem : lease_ports config refuses rid count db ≡ (
      if leb count (length (available config refuses db.leases))
      then (
        ok (take count (available config refuses db.leases)),
        record db {
          leases =
              db.leases ++ map (lease_row rid) (take count (available config refuses db.leases));
        },
      )
      else (err no_free_ports, record db { leases = others rid db.leases }))
  unfolding lease_ports lease_result
  lease_ports_lem =
      rw
        (lease_loop_from_none refuses rid count (range_size config) config.port_range_start
          db.leases)
        (elim (Bool-cases (leb count (length (available config refuses db.leases)))) [
          | inl e ↦ rw (e, enough (ground arith))
          | inr e ↦ rw (
            e,
            few (ground arith),
            others-append rid db.leases (map (lease_row rid) chosen),
            others-own rid chosen,
            append-nil (others rid db.leases),
          )
        ])
    where
      enough : count ≤ length (available config refuses db.leases) → (length chosen == count) ≡ true
      enough h =
          let n : length chosen ≡ count =
            omega (arith, length-take count (available config refuses db.leases)) in
          ground arith

      few : length (available config refuses db.leases) < count → (length chosen == count) ≡ false
      few h =
          let n : length chosen < count =
            omega (arith, length-take count (available config refuses db.leases)) in
          ground arith
