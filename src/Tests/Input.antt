-- ===== src/Tests/Input.antt =====
-- Key codes: crates/input/src/keymap.rs.
use reachmydevice.Prelude.{◌≡◌, refl, some, none}
use reachmydevice.Input.Keymap.{hid_to_macos, hid_to_x_keycode}

-- The cases of the source's own tests.
x_keycode_insert : hid_to_x_keycode 0x49 ≡ some 118
unfolding hid_to_x_keycode
x_keycode_insert = refl

x_keycode_unmapped : hid_to_x_keycode 0xFFFF ≡ none
unfolding hid_to_x_keycode
x_keycode_unmapped = refl

macos_print_screen : hid_to_macos 0x46 ≡ hid_to_macos 0x68
unfolding hid_to_macos
macos_print_screen = refl
