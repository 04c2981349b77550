-- ===== src/Detector.antt =====
-- pkg/detector: the deterministic detectors that turn agent events into tunnel signals.
pub mod Fingerprint
pub mod Signal
pub mod RepeatedFailure
pub mod ToolBudget
pub mod HypothesisLoop
pub mod VerificationChurn
mod Tests
