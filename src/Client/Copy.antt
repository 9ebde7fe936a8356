-- ===== src/Client/Copy.antt =====
-- quish-client/src/cp.rs: what is copied where, and how.
pub mod Spec
pub mod Paths
pub mod Walk
pub mod Download
pub mod Upload
