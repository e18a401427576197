-- ===== src/Registry.antt =====
-- apps/cloud-api/src/runtime-registry/runtime-registry.service.ts. Each method acts on the tables;
-- a lookup returns the first row that fits.
pub mod Ports
pub mod Leasing
pub mod Leases
pub mod Apart
pub mod Exclusive
pub mod Unordered
pub mod Tokens
pub mod Volumes
pub mod Summaries
pub mod Tests
use microsanbox_cloud.Prelude.{
  ℕ, zero, suc, ◌+◌, ◌-◌, ◌*◌, Bool, true, false, not, ◌&&◌, ◌||◌, List, [], ◌∷◌, ◌++◌, Option,
  none, some, Text, codes, text_eq, option_text_eq, ltb, leb, ◌==◌, if◌then◌else◌, length, find?,
  keep, any, is_empty,
}
use microsanbox_cloud.Text.{trim}
use microsanbox_cloud.Effects.{
  when◌then◌else◌, Error, Outcome, Eff, ok, err, pure, throw, ◌>>=◌, ◌>>◌, or_throw,
  sandbox_id_required, no_free_ports, constraint,
}
use microsanbox_cloud.Database.{
  Db, RuntimeEntity, RuntimeStatus, StatusReason, VolumeEntity, PortLeaseEntity,
  SignedPreviewTokenEntity, RuntimeHostEntity,
}
use microsanbox_cloud.Config.{AppConfig}
use microsanbox_cloud.Identity.{normalize_sandbox_id}
use microsanbox_cloud.Identity

-- A method of the registry.
abbrev pub Reg : Type 0 → Type 0
Reg A = Eff Db A

unfoldable pub local_host_id : Text
local_host_id = codes "local"

-- `normalizeSandboxId`, which throws on a text without letters and digits.
unfoldable pub normalized : {S : Type 0} → Text → Eff S Text
normalized value = or_throw (normalize_sandbox_id value) sandbox_id_required

-- Two rows that the unique columns `sandboxId` and `name` keep apart.
pub clash : RuntimeEntity → RuntimeEntity → Bool
clash r o =
    not (text_eq r.id o.id)
    && (text_eq r.sandbox_id o.sandbox_id
        || elim r.name [ none ↦ false | some n ↦ option_text_eq (some n) o.name ])

-- `save`: the row of that id is replaced, or a new row is added.
unfoldable pub upsert : RuntimeEntity → List RuntimeEntity → List RuntimeEntity
upsert r [] = r ∷ []
upsert r (o ∷ rows) = if text_eq r.id o.id then r ∷ rows else o ∷ upsert r rows

unfoldable pub save_runtime : RuntimeEntity → Reg RuntimeEntity
unfolding clash upsert
save_runtime r db =
    if any (clash r) db.runtimes
    then (err constraint, db)
    else (ok r, record db { runtimes = upsert r db.runtimes })

-- The patch is the function that assigns its fields.
unfoldable pub update_runtime : RuntimeEntity → (RuntimeEntity → RuntimeEntity) → Reg RuntimeEntity
unfolding save_runtime
update_runtime runtime patch = save_runtime (patch runtime)

unfoldable pub find_runtime_by_sandbox_id_or_name : Text → Reg (Option RuntimeEntity)
unfolding normalized
find_runtime_by_sandbox_id_or_name value = do
  key ← normalized value
  λ db. (
    ok (find? (λ r. text_eq r.sandbox_id key || option_text_eq r.name (some key)) db.runtimes),
    db,
  )

unfoldable pub find_runtime_by_sandbox_id : Text → Reg (Option RuntimeEntity)
unfolding normalized
find_runtime_by_sandbox_id sandbox_id = do
  key ← normalized sandbox_id
  λ db. (ok (find? (λ r. text_eq r.sandbox_id key) db.runtimes), db)

unfoldable pub release_ports : Text → Db → Db
release_ports runtime_id db = record db {
  leases = keep (λ l. not (text_eq l.runtime_id runtime_id)) db.leases;
}

unfoldable pub delete_runtime : RuntimeEntity → Db → Db
delete_runtime runtime db = record db {
  runtimes = keep (λ r. not (text_eq r.id runtime.id)) db.runtimes;
  leases = keep (λ l. not (text_eq l.runtime_id runtime.id)) db.leases;
  preview_tokens = keep (λ t. not (text_eq t.sandbox_id runtime.sandbox_id)) db.preview_tokens;
}

-- The row that leases a port of the local host.
pub lease_row : Text → ℕ → PortLeaseEntity
lease_row runtime_id port = record {
  runtime_host_id = local_host_id;
  port = port;
  runtime_id = runtime_id;
}

pub on_port : ℕ → PortLeaseEntity → Bool
on_port port l = text_eq l.runtime_host_id local_host_id && l.port == port

-- A lease of the port is found.
unfoldable pub is_leased : ℕ → List PortLeaseEntity → Bool
unfolding on_port
is_leased port rows = any (on_port port) rows

-- The body of the loop. `refuses` says for which ports the insertion of the lease is refused,
-- because another request took the port after the lookup or the database failed.
pub try_port : (ℕ → Bool) → Text → ℕ → List ℕ × List PortLeaseEntity → List ℕ × List PortLeaseEntity
unfolding is_leased lease_row
try_port refuses runtime_id port (ports, rows) =
    if is_leased port rows
    then (ports, rows)
    else if refuses port
    then (ports, rows)
    else (ports ++ port ∷ [], rows ++ lease_row runtime_id port ∷ [])

-- The loop over the range, with the number of ports that are left of it.
pub lease_loop :
    (ℕ → Bool) → Text → ℕ → ℕ → ℕ → List ℕ × List PortLeaseEntity → List ℕ × List PortLeaseEntity
lease_loop refuses runtime_id count zero port s = s
lease_loop refuses runtime_id count (suc left) port s = elim (ltb (length s.0) count) [
  | true ↦ lease_loop refuses runtime_id count left (port + 1) (try_port refuses runtime_id port s)
  | false ↦ s
]

-- What follows the loop: too few ports take back every lease of the runtime.
pub lease_result : Text → ℕ → Db → List ℕ × List PortLeaseEntity → Outcome (List ℕ) × Db
lease_result runtime_id count db (ports, rows) =
    if length ports == count then (ok ports, record db { leases = rows }) else (
      err no_free_ports,
      record db { leases = keep (λ l. not (text_eq l.runtime_id runtime_id)) rows },
    )

unfoldable pub lease_ports : AppConfig → (ℕ → Bool) → Text → ℕ → Reg (List ℕ)
unfolding lease_loop try_port lease_result
lease_ports config refuses runtime_id count db = lease_result runtime_id count db (
    lease_loop refuses runtime_id count (config.port_range_end + 1 - config.port_range_start)
      config.port_range_start ([], db.leases))

unfoldable pub sandbox_name : AppConfig → Text → Reg Text
sandbox_name config sandbox_id =
    or_throw (Identity.sandbox_name config.sandbox_name_prefix sandbox_id) sandbox_id_required

unfoldable pub volume_backend_name : AppConfig → Text → Reg Text
volume_backend_name config volume_id =
    or_throw (Identity.volume_name config.volume_name_prefix volume_id) sandbox_id_required

-- `now` is the time that `new Date()` returns.
unfoldable pub set_runtime_status :
    ℕ → RuntimeEntity → RuntimeStatus → Option StatusReason → Reg RuntimeEntity
set_runtime_status now runtime status reason = update_runtime runtime λ r. record r {
  status = status;
  status_reason = reason;
  last_active_at = elim status [ RuntimeStatus.running ↦ some now | _ ↦ r.last_active_at ];
}

-- `null` where no text is given or it is blank.
unfoldable pub normalize_name : {S : Type 0} → Option Text → Eff S (Option Text)
unfolding normalized
normalize_name none = pure none
normalize_name (some value) =
    when is_empty (trim value) then pure none else (normalized value >>= λ name. pure (some name))

-- `draw` is `randomBytes(8)` as a hexadecimal text.
unfoldable pub create_sandbox_id : {S : Type 0} → Eff S Text → Option Text → Eff S Text
unfolding normalized
create_sandbox_id draw none = draw >>= normalized
create_sandbox_id draw (some seed) =
    when is_empty (trim seed) then (draw >>= normalized) else normalized seed
