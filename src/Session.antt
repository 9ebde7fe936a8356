-- ===== src/Session.antt =====
-- quish-server: what a session does with the frames of a channel.
pub mod FrameReader
pub mod Pump
pub mod Forward
