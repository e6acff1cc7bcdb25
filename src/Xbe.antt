-- ===== src/Xbe.antt =====
-- src/core/xbe_patch_source.c, the transform of a whole executable in memory: the branch behind
-- each conventional media check is made unconditional.
pub mod Whole
pub mod Cache
use gdox.Common.{
  ℕ, zero, suc, ◌+◌, ◌-◌, Bool, true, false, not, ◌||◌, List, [], ◌∷◌, length, take, drop, set, ltb,
  if◌then◌else◌,
}
use gdox.Common.Compare.{same_bytes}

-- `media_check_signature`
abbrev pub media_check_signature : List ℕ
media_check_signature = 0xe8 ∷ 0xca ∷ 0xfd ∷ 0xff ∷ 0xff ∷ 0x85 ∷ 0xc0 ∷ 0x7d ∷ []

-- "XBEH"
abbrev pub xbe_magic : List ℕ
xbe_magic = 88 ∷ 66 ∷ 69 ∷ 72 ∷ []

-- `memcmp(bytes + offset, media_check_signature, XBE_SIGNATURE_BYTES) == 0`
unfoldable pub signature_at : List ℕ → ℕ → Bool
signature_at bytes offset = same_bytes (take 8 (drop offset bytes)) media_check_signature

-- The rounds of the loop from `offset` on; the bytes are changed as it goes.
unfoldable pub patch_rounds : ℕ → ℕ → List ℕ → List ℕ
patch_rounds zero offset bytes = bytes
patch_rounds (suc rounds) offset bytes =
    patch_rounds rounds (offset + 1)
      (if signature_at bytes offset then set bytes (offset + 7) 0xeb else bytes)

-- `gdox_xbe_patch_complete_file` of the first `size` bytes of a buffer
unfoldable pub patch_complete_file : List ℕ → ℕ → Bool × List ℕ
patch_complete_file bytes size =
    if ltb size 8 || not (same_bytes (take 4 bytes) xbe_magic)
    then (false, bytes)
    else (true, patch_rounds (size - 8 + 1) 0 bytes)
