-- ===== src/Control/Ports.antt =====
-- Host ports for the ports of a specification.
use microsanbox_cloud.Prelude.{ℕ, ◌-◌, List, [], ◌∷◌, Text, ltb, if◌then◌else◌, is_empty, length}
use microsanbox_cloud.Effects.{when◌then◌else◌, pure, ◌>>=◌}
use microsanbox_cloud.Database.{RuntimeEntity, RuntimePortBindingRecord}
use microsanbox_cloud.Config.{AppConfig}
use microsanbox_cloud.Registry.{lease_ports}
use microsanbox_cloud.Control.Types.{Backend}
use microsanbox_cloud.Control.Monad.{M, with_db}

abbrev Bindings : Type 0
Bindings = List RuntimePortBindingRecord

-- `port.hostPort = leased[index]!` for every port; as many are leased as there are ports.
unfoldable pub assign_leased : List ℕ → Bindings → Bindings
assign_leased leased [] = []
assign_leased [] (p ∷ ports) = p ∷ ports
assign_leased (h ∷ leased) (p ∷ ports) = record p { host_port = h } ∷ assign_leased leased ports

-- Each port keeps the host port at its place in the old bindings; the others get a leased one.
unfoldable pub merge_ports : Bindings → List ℕ → Bindings → Bindings
unfolding assign_leased
merge_ports bindings leased [] = []
merge_ports [] leased (p ∷ ports) = assign_leased leased (p ∷ ports)
merge_ports (b ∷ bindings) leased (p ∷ ports) =
    record p { host_port = b.host_port } ∷ merge_ports bindings leased ports

module _ {W : Type 0} (config : AppConfig) (b : Backend W) where
  -- `leasePorts` for the control service: the database decides which leases it refuses.
  unfoldable pub lease : Text → ℕ → M W (List ℕ)
  lease runtime_id count s =
      with_db s (lease_ports config (b.refuses s.world) runtime_id count s.db)

  -- The branch on `portBindings`: all ports are leased anew, or those that the runtime lacks.
  unfoldable pub assign_ports : RuntimeEntity → Bindings → M W Bindings
  unfolding lease assign_leased merge_ports
  assign_ports runtime ports =
      when is_empty runtime.port_bindings
      then (do leased ← lease runtime.id (length ports); pure (assign_leased leased ports))
      else (do
        leased ←
            (when ltb (length runtime.port_bindings) (length ports)
              then lease runtime.id (length ports - length runtime.port_bindings)
              else pure [])
        pure (merge_ports runtime.port_bindings leased ports))
