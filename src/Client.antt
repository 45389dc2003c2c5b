-- ===== src/Client.antt =====
-- pkg/client.
pub mod Auth
pub mod Options
pub mod Connect
pub mod Loops
