-- ===== src/Control/HostPorts.antt =====
-- The host ports of a runtime that grows.
use microsanbox_cloud.Prelude.{
  ◌≡◌, refl, ap, ℕ, ◌+◌, ◌≤◌, List, [], ◌∷◌, ◌++◌, map, arith, length, take,
}
use microsanbox_cloud.Database.{RuntimePortBindingRecord}
use microsanbox_cloud.Control.Build.{unassigned}
use microsanbox_cloud.Control.Ports.{assign_leased, merge_ports}

abbrev Bindings : Type 0
Bindings = List RuntimePortBindingRecord

abbrev hosts : Bindings → List ℕ
hosts ports = map (λ p. p.host_port) ports

assign_leased-hosts :
    (leased : List ℕ) (ports : Bindings)
    → length ports ≤ length leased
    → hosts (assign_leased leased ports) ≡ take (length ports) leased
unfolding assign_leased
assign_leased-hosts leased [] h = refl
assign_leased-hosts [] (p ∷ ports) h = absurd (omega (arith, h))
assign_leased-hosts (n ∷ leased) (p ∷ ports) h =
    ap (λ ns. n ∷ ns) (assign_leased-hosts leased ports (omega (arith, h)))

assign_leased-kept :
    (leased : List ℕ) (ports : Bindings)
    → map unassigned (assign_leased leased ports) ≡ map unassigned ports
unfolding assign_leased
assign_leased-kept leased [] = refl
assign_leased-kept [] (p ∷ ports) = refl
assign_leased-kept (n ∷ leased) (p ∷ ports) =
    ap (λ ps. unassigned p ∷ ps) (assign_leased-kept leased ports)

merge_ports-hosts :
    (bindings : Bindings) (leased : List ℕ) (ports : Bindings)
    → length ports ≤ length bindings + length leased
    → hosts (merge_ports bindings leased ports) ≡ take (length ports) (hosts bindings ++ leased)
unfolding merge_ports
merge_ports-hosts bindings leased [] h = refl
merge_ports-hosts [] leased (p ∷ ports) h =
    assign_leased-hosts leased (p ∷ ports) (omega (arith, h))
merge_ports-hosts (b ∷ bindings) leased (p ∷ ports) h =
    ap (λ ns. b.host_port ∷ ns) (merge_ports-hosts bindings leased ports (omega (arith, h)))

merge_ports-kept :
    (bindings : Bindings) (leased : List ℕ) (ports : Bindings)
    → map unassigned (merge_ports bindings leased ports) ≡ map unassigned ports
unfolding merge_ports
merge_ports-kept bindings leased [] = refl
merge_ports-kept [] leased (p ∷ ports) = assign_leased-kept leased (p ∷ ports)
merge_ports-kept (b ∷ bindings) leased (p ∷ ports) =
    ap (λ ps. unassigned p ∷ ps) (merge_ports-kept bindings leased ports)

-- Where the runtime's bindings and the leased ports are enough, the ports of a specification get
-- the host ports of the bindings in their order and then the leased ones, and change in nothing
-- else.
pub merge_ports_lem :
    (bindings : Bindings) (leased : List ℕ) (ports : Bindings)
    → length ports ≤ length bindings + length leased
    → (map (λ p. p.host_port) (merge_ports bindings leased ports)
        ≡ take (length ports) (map (λ p. p.host_port) bindings ++ leased))
      × (map unassigned (merge_ports bindings leased ports) ≡ map unassigned ports)
merge_ports_lem bindings leased ports h =
    (merge_ports-hosts bindings leased ports h, merge_ports-kept bindings leased ports)
