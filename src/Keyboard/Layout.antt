-- ===== src/Keyboard/Layout.antt =====
-- `ascii_map` and `shift_ascii_map` of src/keyboardhandler.c: the designated initialisers, as pairs
-- of a key of include/keyboardhandler.h and a character. All other elements are 0.
use pygmali_os.Base.{ℕ, List, [], ◌∷◌, ◌==◌, if◌then◌else◌}

abbrev pub lookup_key : List (ℕ × ℕ) → ℕ → ℕ
lookup_key [] k = 0
lookup_key ((j, c) ∷ t) k = if j == k then c else lookup_key t k

abbrev ascii_entries : List (ℕ × ℕ)
ascii_entries =
    (0x1C, 97)
    ∷ (0x32, 98)
    ∷ (0x21, 99)
    ∷ (0x23, 100)
    ∷ (0x24, 101)
    ∷ (0x2B, 102)
    ∷ (0x34, 103)
    ∷ (0x33, 104)
    ∷ (0x43, 105)
    ∷ (0x3B, 106)
    ∷ (0x42, 107)
    ∷ (0x4B, 108)
    ∷ (0x3A, 109)
    ∷ (0x31, 110)
    ∷ (0x44, 111)
    ∷ (0x4D, 112)
    ∷ (0x15, 113)
    ∷ (0x2D, 114)
    ∷ (0x1B, 115)
    ∷ (0x2C, 116)
    ∷ (0x3C, 117)
    ∷ (0x2A, 118)
    ∷ (0x1D, 119)
    ∷ (0x22, 120)
    ∷ (0x35, 121)
    ∷ (0x1A, 122)
    ∷ (0x41, 44)
    ∷ (0x49, 46)
    ∷ (0x4A, 47)
    ∷ (0x52, 39)
    ∷ (0x4C, 59)
    ∷ (0x54, 91)
    ∷ (0x5B, 93)
    ∷ (0x5D, 92)
    ∷ (0x0E, 96)
    ∷ (0x45, 48)
    ∷ (0x16, 49)
    ∷ (0x1E, 50)
    ∷ (0x26, 51)
    ∷ (0x25, 52)
    ∷ (0x2E, 53)
    ∷ (0x36, 54)
    ∷ (0x3D, 55)
    ∷ (0x3E, 56)
    ∷ (0x46, 57)
    ∷ (0x4E, 45)
    ∷ (0x55, 61)
    ∷ (0x5A, 10)
    ∷ (0x0D, 9)
    ∷ (0x29, 32)
    ∷ []

abbrev shift_entries : List (ℕ × ℕ)
shift_entries =
    (0x1C, 65)
    ∷ (0x32, 66)
    ∷ (0x21, 67)
    ∷ (0x23, 68)
    ∷ (0x24, 69)
    ∷ (0x2B, 70)
    ∷ (0x34, 71)
    ∷ (0x33, 72)
    ∷ (0x43, 73)
    ∷ (0x3B, 74)
    ∷ (0x42, 75)
    ∷ (0x4B, 76)
    ∷ (0x3A, 77)
    ∷ (0x31, 78)
    ∷ (0x44, 79)
    ∷ (0x4D, 80)
    ∷ (0x15, 81)
    ∷ (0x2D, 82)
    ∷ (0x1B, 83)
    ∷ (0x2C, 84)
    ∷ (0x3C, 85)
    ∷ (0x2A, 86)
    ∷ (0x1D, 87)
    ∷ (0x22, 88)
    ∷ (0x35, 89)
    ∷ (0x1A, 90)
    ∷ (0x41, 60)
    ∷ (0x49, 62)
    ∷ (0x4A, 63)
    ∷ (0x52, 34)
    ∷ (0x4C, 58)
    ∷ (0x54, 123)
    ∷ (0x5B, 125)
    ∷ (0x5D, 124)
    ∷ (0x0E, 126)
    ∷ (0x45, 41)
    ∷ (0x16, 33)
    ∷ (0x1E, 64)
    ∷ (0x26, 35)
    ∷ (0x25, 36)
    ∷ (0x2E, 37)
    ∷ (0x36, 94)
    ∷ (0x3D, 38)
    ∷ (0x3E, 42)
    ∷ (0x46, 40)
    ∷ (0x4E, 95)
    ∷ (0x55, 43)
    ∷ (0x5A, 10)
    ∷ (0x0D, 9)
    ∷ (0x29, 32)
    ∷ []

unfoldable pub ascii_map : ℕ → ℕ
ascii_map k = lookup_key ascii_entries k

unfoldable pub shift_ascii_map : ℕ → ℕ
shift_ascii_map k = lookup_key shift_entries k
