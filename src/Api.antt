-- ===== src/Api.antt =====
-- The custom resource (api/v1alpha1): the fields that the controllers modelled here read or write.
-- A pointer field is an Option, an int32 of the spec a ℤ, and a map an association list.
pub mod Core
mod Datastores
mod Spec
mod Status
mod Conditions
mod Tenants
unfoldable pub use Datastores.*
unfoldable pub use Spec.*
pub use Status.*
unfoldable pub use Tenants.*
unfoldable pub use Conditions.*
