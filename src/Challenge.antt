-- ===== src/Challenge.antt =====
-- pkg/challenge: the store of the challenges that a blocked agent may answer.
pub mod Store
pub mod Justification
pub mod Projector
pub mod Service
pub mod States
mod Tests
