-- ===== src/Hash/Hex.antt =====
-- src/core/hash.c: bytes in hexadecimal.
use Prim.Native.Nat.{bit_and}
use gdox.Common.{ℕ, ◌*◌, ◌/◌, ◌≡◌, refl, Bool, List, [], ◌∷◌, get_or, length, if◌then◌else◌, arith}

-- "0123456789abcdef"
abbrev pub lower_digits : List ℕ
lower_digits = 48 ∷ 49 ∷ 50 ∷ 51 ∷ 52 ∷ 53 ∷ 54 ∷ 55 ∷ 56 ∷ 57 ∷ 97 ∷ 98 ∷ 99 ∷ 100 ∷ 101 ∷ 102 ∷ []

-- "0123456789ABCDEF"
abbrev pub upper_digits : List ℕ
upper_digits = 48 ∷ 49 ∷ 50 ∷ 51 ∷ 52 ∷ 53 ∷ 54 ∷ 55 ∷ 56 ∷ 57 ∷ 65 ∷ 66 ∷ 67 ∷ 68 ∷ 69 ∷ 70 ∷ []

-- The loop over the bytes, with a table of digits
unfoldable pub hex_text : List ℕ → List ℕ → List ℕ
hex_text digits [] = []
hex_text digits (b ∷ bytes) =
    get_or digits (b / 16) 0 ∷ get_or digits (bit_and b 0x0f) 0 ∷ hex_text digits bytes

-- `gdox_hash_hex` into a buffer that is not NULL: the text in front of its NUL
unfoldable pub hash_hex : List ℕ → Bool → List ℕ
hash_hex bytes uppercase = hex_text (if uppercase then upper_digits else lower_digits) bytes

pub length-hex_text : (digits bytes : List ℕ) → length (hex_text digits bytes) ≡ length bytes * 2
unfolding hex_text
length-hex_text digits [] = refl
length-hex_text digits (b ∷ bytes) = omega (arith, length-hex_text digits bytes)
