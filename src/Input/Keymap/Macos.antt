-- ===== src/Input/Keymap/Macos.antt =====
-- `hid_to_macos`: Carbon virtual key codes.
use reachmydevice.Prelude.{ℕ, ◌≡◌, refl, Bool, true, false, ◌||◌, Option, some, [], ◌∷◌, ◌==◌}
use reachmydevice.Input.Keymap.Table.{Arms, select, distinct, select-distinct}

unfoldable pub macos_arms : Arms
macos_arms =
    (0x04, 0)
    ∷ (0x05, 11)
    ∷ (0x06, 8)
    ∷ (0x07, 2)
    ∷ (0x08, 14)
    ∷ (0x09, 3)
    ∷ (0x0A, 5)
    ∷ (0x0B, 4)
    ∷ (0x0C, 34)
    ∷ (0x0D, 38)
    ∷ (0x0E, 40)
    ∷ (0x0F, 37)
    ∷ (0x10, 46)
    ∷ (0x11, 45)
    ∷ (0x12, 31)
    ∷ (0x13, 35)
    ∷ (0x14, 12)
    ∷ (0x15, 15)
    ∷ (0x16, 1)
    ∷ (0x17, 17)
    ∷ (0x18, 32)
    ∷ (0x19, 9)
    ∷ (0x1A, 13)
    ∷ (0x1B, 7)
    ∷ (0x1C, 16)
    ∷ (0x1D, 6)
    ∷ (0x1E, 18)
    ∷ (0x1F, 19)
    ∷ (0x20, 20)
    ∷ (0x21, 21)
    ∷ (0x22, 23)
    ∷ (0x23, 22)
    ∷ (0x24, 26)
    ∷ (0x25, 28)
    ∷ (0x26, 25)
    ∷ (0x27, 29)
    ∷ (0x28, 36)
    ∷ (0x29, 53)
    ∷ (0x2A, 51)
    ∷ (0x2B, 48)
    ∷ (0x2C, 49)
    ∷ (0x2D, 27)
    ∷ (0x2E, 24)
    ∷ (0x2F, 33)
    ∷ (0x30, 30)
    ∷ (0x31, 42)
    ∷ (0x33, 41)
    ∷ (0x34, 39)
    ∷ (0x35, 50)
    ∷ (0x36, 43)
    ∷ (0x37, 47)
    ∷ (0x38, 44)
    ∷ (0x39, 57)
    ∷ (0x3A, 122)
    ∷ (0x3B, 120)
    ∷ (0x3C, 99)
    ∷ (0x3D, 118)
    ∷ (0x3E, 96)
    ∷ (0x3F, 97)
    ∷ (0x40, 98)
    ∷ (0x41, 100)
    ∷ (0x42, 101)
    ∷ (0x43, 109)
    ∷ (0x44, 103)
    ∷ (0x45, 111)
    ∷ (0x46, 105)
    ∷ (0x47, 107)
    ∷ (0x48, 113)
    ∷ (0x49, 114)
    ∷ (0x65, 110)
    ∷ (0x68, 105)
    ∷ (0x69, 107)
    ∷ (0x6A, 113)
    ∷ (0x6B, 106)
    ∷ (0x6C, 64)
    ∷ (0x6D, 79)
    ∷ (0x6E, 80)
    ∷ (0x6F, 90)
    ∷ (0x4A, 115)
    ∷ (0x4B, 116)
    ∷ (0x4C, 117)
    ∷ (0x4D, 119)
    ∷ (0x4E, 121)
    ∷ (0x4F, 124)
    ∷ (0x50, 123)
    ∷ (0x51, 125)
    ∷ (0x52, 126)
    ∷ (0x53, 71)
    ∷ (0x54, 75)
    ∷ (0x55, 67)
    ∷ (0x56, 78)
    ∷ (0x57, 69)
    ∷ (0x58, 76)
    ∷ (0x59, 83)
    ∷ (0x5A, 84)
    ∷ (0x5B, 85)
    ∷ (0x5C, 86)
    ∷ (0x5D, 87)
    ∷ (0x5E, 88)
    ∷ (0x5F, 89)
    ∷ (0x60, 91)
    ∷ (0x61, 92)
    ∷ (0x62, 82)
    ∷ (0x63, 65)
    ∷ (0x67, 81)
    ∷ (0xE0, 59)
    ∷ (0xE1, 56)
    ∷ (0xE2, 58)
    ∷ (0xE3, 55)
    ∷ (0xE4, 62)
    ∷ (0xE5, 60)
    ∷ (0xE6, 61)
    ∷ (0xE7, 54)
    ∷ []

unfoldable pub hid_to_macos : ℕ → Option ℕ
unfolding macos_arms select
hid_to_macos hid = select macos_arms hid

-- Codes of F13, F14 and F15, which PrintScreen, ScrollLock and Pause share.
abbrev pub is_shared : ℕ → Bool
is_shared v = v == 105 || (v == 107 || v == 113)

macos_distinct : distinct is_shared macos_arms ≡ true
unfolding distinct macos_arms
macos_distinct = refl

-- Two usages with the same macOS key code are the same usage, but for the codes 105, 107 and 113
-- (F13, F14, F15).
pub hid_to_macos-injective :
    (a b v : ℕ) → is_shared v ≡ false → hid_to_macos a ≡ some v → hid_to_macos b ≡ some v → a ≡ b
unfolding hid_to_macos
hid_to_macos-injective a b v s p q = select-distinct is_shared macos_arms a b v macos_distinct s p q
