-- ===== src/Compat.antt =====
-- crates/lmml-compat: the flags of the llama-server binary, as probed from its help, and the command
-- line that a configuration becomes.
pub mod Types
pub mod Help
pub mod Argv
mod Tests
