-- ===== src/Examples.antt =====
-- The theorems at concrete inputs: an instance with external datastores, its pods, a breaker with two
-- dependencies.
pub mod Values
mod Phases
mod Breakers
mod Identities
pub mod Instances
mod Workloads
mod Migrations
mod Settings
mod Secrecy
mod Storage
mod Drift
mod Rollup
mod Health
pub mod Server
pub mod Organizations
pub mod World
mod Projects
