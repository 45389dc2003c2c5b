-- ===== src/Examples.antt =====
-- The theorems at concrete inputs, and runs of the definitions.
mod Protocol
mod Router
mod Peer
mod Local
mod Server
mod Setup
mod Connecting
mod Rigs
mod Running
mod Delivery
mod Handshake
mod Handling
mod Programs
mod Together
mod Conversation
