-- ===== src/Control.antt =====
-- apps/cloud-api/src/runtime-control/runtime-control.service.ts
pub mod Types
pub mod Monad
pub mod Json
pub mod Spec
pub mod Build
pub mod Rows
pub mod Ports
pub mod Health
pub mod Provision
pub mod Lifecycle
pub mod Specified
pub mod Stable
pub mod Updates
pub mod Lookup
pub mod Access
pub mod Outcomes
pub mod Leaks
pub mod Waiting
pub mod Ready
pub mod Links
pub mod Previewable
pub mod HostPorts
pub mod Names
pub mod Atomic
pub mod Exclusive
pub mod Provisioned
pub mod Kept
pub mod KeptLinks
pub mod Requests
pub mod Listing
pub mod Routes
pub mod Guarding
pub mod Preview
pub mod Volumes
pub mod Tests
pub mod Runs
