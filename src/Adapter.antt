-- ===== src/Adapter.antt =====
-- pkg/adapter: the hook gate and the delivery of advice to the supervised agent.
pub mod Proposed
pub mod HookGate
pub mod Delivery
pub mod PendingQueue
pub mod Markers
pub mod Ledger
pub mod Boundary
pub mod Acknowledge
pub mod Advisory
mod Tests
