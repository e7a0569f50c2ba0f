-- ===== src/Builders.antt =====
-- internal/resources: the objects that an instance's workload consists of.
pub mod Labels
pub mod Deployments
pub mod Services
pub mod Policies
pub mod Scaling
pub mod Selectors
pub mod Egress
pub mod Mounted
pub mod Variables
