-- ===== src/Input/Keymap.antt =====
-- crates/input/src/keymap.rs: USB HID usage codes to the native key codes of each host.
-- A `match` on literals is the list of its arms, `(usage, code)`, read from the top.
mod Table
pub mod Macos
pub mod Evdev
unfoldable pub use Table.*
unfoldable pub use Macos.*
unfoldable pub use Evdev.*
