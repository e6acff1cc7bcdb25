-- ===== src/Hash.antt =====
-- include/gdox/hash.h and src/core/hash.c: the CRC-32 of the source, the hash stream beside it, and
-- the hash of a whole file. The digests MD5, SHA-1 and SHA-256 are computed behind
-- core/ports/hash_backend.h by the platform's library, and files are read through
-- core/ports/preservation_io.h: both ports are parameters.
pub mod Stream
pub mod Files
pub mod Crc
pub mod Hex
use Prim.Native.Nat.{bit_xor, bit_and}
use gdox.Common.{
  ℕ, zero, suc, ◌+◌, ◌-◌, ◌*◌, ◌/◌, Bool, true, false, not, ◌||◌, Option, none, some, List, [], ◌∷◌,
  length, get_or, ◌⊎◌, inl, inr, ltb, ◌==◌, if◌then◌else◌, u32_max,
}
use gdox.Fault.{
  ErrorCode, no_error, invalid_argument, internal, io, Outcome, ok, failed, error_is_set,
}

-- The table of `crc32_update`, for four bits
abbrev pub crc32_table : List ℕ
crc32_table =
    0x00000000 ∷ 0x1db71064 ∷ 0x3b6e20c8 ∷ 0x26d930ac ∷ 0x76dc4190 ∷ 0x6b6b51f4 ∷ 0x4db26158
    ∷ 0x5005713c ∷ 0xedb88320 ∷ 0xf00f9344 ∷ 0xd6d6a3e8 ∷ 0xcb61b38c ∷ 0x9b64c2b0 ∷ 0x86d3d2d4
    ∷ 0xa00ae278 ∷ 0xbdbdf21c ∷ []

-- `crc32 = table[crc32 & 0x0f] ^ (crc32 >> 4)`
unfoldable pub crc32_nibble : ℕ → ℕ
crc32_nibble crc = bit_xor (get_or crc32_table (bit_and crc 0x0f) 0) (crc / 16)

-- One round of `crc32_update`
unfoldable pub crc32_byte : ℕ → ℕ → ℕ
crc32_byte crc b = crc32_nibble (crc32_nibble (bit_xor crc b))

unfoldable pub crc32_update : ℕ → List ℕ → ℕ
crc32_update crc [] = crc
crc32_update crc (b ∷ bytes) = crc32_update (crc32_byte crc b) bytes

-- `~` of a uint32_t
abbrev pub complement : ℕ → ℕ
complement x = u32_max - x

-- `gdox_crc32_buffer`; the bytes are `none` for a NULL pointer, with their length apart.
unfoldable pub crc32_buffer : Option (List ℕ) → ℕ → ℕ
crc32_buffer none length = if length == 0 then complement (crc32_update u32_max []) else 0
crc32_buffer (some bytes) length = complement (crc32_update u32_max bytes)

-- The digests that the backend writes
pub record Digests : Type 0 where
  pub md5 : List ℕ
  pub sha1 : List ℕ
  pub sha256 : List ℕ

-- `gdox_hashes`
pub record Hashes : Type 0 where
  pub crc32 : ℕ
  pub digests : Digests

-- core/ports/hash_backend.h. `finish` is given the digests' memory and returns it as it leaves it.
pub record HashBackend (B : Type 0) : Type 0 where
  pub create : ErrorCode ⊎ B
  pub update : B → List ℕ → Outcome × B
  pub finish : B → Digests → Outcome × Digests × B

-- `gdox_hash_stream`
pub record HashStream (B : Type 0) : Type 0 where
  pub backend : B
  pub crc32 : ℕ
  pub finished : Bool

module _ {B : Type 0} (port : HashBackend B) where
  -- `gdox_hash_stream_create` with a place for the stream; `allocated` says that `calloc` succeeds.
  unfoldable pub hash_stream_create : Bool → ErrorCode ⊎ HashStream B
  hash_stream_create false = inl internal
  hash_stream_create true = elim port.create [
    | inl code ↦ inl code
    | inr b ↦ inr (record { backend = b; crc32 = u32_max; finished = false })
  ]

  -- `gdox_hash_stream_update` on a stream and bytes that are there
  unfoldable pub hash_stream_update : HashStream B → List ℕ → Outcome × HashStream B
  hash_stream_update s bytes =
      let (result, b) = port.update s.backend bytes in
      if s.finished
      then (failed invalid_argument, s)
      else (result, record s { backend = b; crc32 = crc32_update s.crc32 bytes })

  -- `gdox_hash_stream_finish` into hashes that are there
  unfoldable pub hash_stream_finish : HashStream B → Hashes → Outcome × Hashes × HashStream B
  hash_stream_finish s output =
      let (result, digests, b) = port.finish s.backend output.digests in
      if s.finished then (failed invalid_argument, output, s) else elim result [
        | failed code ↦ (failed code, record output { digests = digests }, record s { backend = b })
        | ok ↦ (
          ok,
          record { crc32 = complement s.crc32; digests = digests },
          record s { backend = b; finished = true },
        )
      ]

  -- `gdox_hash_buffer` of bytes that are there
  unfoldable pub hash_buffer : Bool → List ℕ → Hashes → Outcome × Hashes
  hash_buffer allocated bytes output = elim (hash_stream_create allocated) [
    | inl code ↦ (failed code, output)
    | inr s ↦
        let (updated, s') = hash_stream_update s bytes in
        elim updated [
          | failed code ↦ (failed code, output)
          | ok ↦ let (finished, output', s'') = hash_stream_finish s' output in (finished, output')
        ]
  ]
