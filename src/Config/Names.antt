-- ===== src/Config/Names.antt =====
-- No variable is set twice: the names of the variables of each pod, in every configuration.
mod Fits
pub mod Pieces
pub mod Stores
pub mod Adds
pub mod Steps
pub mod Distinct
pub use Fits.*
