-- ===== src/Client.antt =====
-- quish-client: host keys, targets, copying, and the rounds of a login.
pub mod KnownHosts
pub mod Copy
pub mod Target
pub mod ForwardSpec
pub mod Login
pub mod Terminal
pub mod Bridge
