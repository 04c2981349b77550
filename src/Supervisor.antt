-- ===== src/Supervisor.antt =====
-- pkg/supervisor: the composition of the detector, the policy and the delivery.
pub mod Orchestrator
