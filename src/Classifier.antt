-- ===== src/Classifier.antt =====
-- pkg/classifier: the process-local cache of provider assessments.
pub mod ExactCache
mod Tests
