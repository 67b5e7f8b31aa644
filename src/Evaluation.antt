-- ===== src/Evaluation.antt =====
-- Evaluation of transcriptions: python/src/parakeet_onnx/evaluation.
pub mod Metrics
pub mod Models
pub mod Writer
pub mod Capsule
mod Tests
