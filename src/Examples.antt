-- ===== src/Examples.antt =====
-- Concrete runs at which the theorems of the other modules apply.
pub mod Channels
pub mod Servers
pub mod Keepers
pub mod Frames
pub mod Messages
pub mod Transports
pub mod Services
