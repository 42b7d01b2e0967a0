-- ===== src/Input.antt =====
-- crates/input: the input backends' pure part.
pub mod Keymap
