-- ===== src/Config.antt =====
-- internal/langfuse/config.go: the environment and the TLS volumes of the Langfuse pods, computed from
-- the spec. `append` to a list of the Config is a `++` of what the step adds.
pub mod Env
pub mod Auth
pub mod Database
pub mod ClickHouse
pub mod Redis
pub mod Blob
pub mod Build
pub mod Errors
pub mod Names
pub mod Mounts
