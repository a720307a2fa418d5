-- ===== src/Models.antt =====
-- crates/lmml-models: what the header of a GGUF file says of a model.
pub mod Types
pub mod Gguf
mod Tests
