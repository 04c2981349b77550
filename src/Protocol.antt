-- ===== src/Protocol.antt =====
-- pkg/protocol: the model catalogue and the negotiation of capabilities.
pub mod Catalog
pub mod Contract
