-- ===== src/Broker.antt =====
-- The subjects of pkg/broker. The NATS connection itself is a parameter where it is used.
pub mod Subject
pub mod Connection
