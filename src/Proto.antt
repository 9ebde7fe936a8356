-- ===== src/Proto.antt =====
-- quish-proto: the frames of a channel.
pub mod Frame
pub mod Message
