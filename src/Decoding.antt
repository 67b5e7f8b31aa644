-- ===== src/Decoding.antt =====
-- Decoding of model outputs into token ids: python/src/parakeet_onnx/decoding.
pub mod Ctc
pub mod Tdt
mod Tests
