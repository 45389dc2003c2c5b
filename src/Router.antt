-- ===== src/Router.antt =====
-- pkg/router.
pub mod Hex
pub mod Message
pub mod Auth
pub mod Peer
pub mod Server
pub mod Serving
pub mod Handling
pub mod Accepting
pub mod Tls
pub mod Setup
