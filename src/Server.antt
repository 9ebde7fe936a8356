-- ===== src/Server.antt =====
-- quish-server: the monitor, the transport and what they share.
pub mod Challenges
pub mod Monitor
pub mod PamEnv
pub mod PrivDrop
pub mod RateLimit
pub mod Settings
pub mod SignProxy
pub mod SignThrottle
pub mod Transport
pub mod Worker
