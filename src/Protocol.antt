-- ===== src/Protocol.antt =====
-- packages/protocol: how the parts of the system talk to each other.
pub mod Framing
