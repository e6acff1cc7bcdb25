-- ===== src/Source/Image.antt =====
-- What a client of a sector source relies on, and what `gdox_source_read` decides before it calls
-- through the table.
use gdox.Common.{
  ℕ, ◌+◌, ◌*◌, ◌≤◌, ◌<◌, ◌≡◌, ◌≢◌, ◌↔◌, true, List, length, Image, slice, arith, u32_mod, u64_mod,
}
use gdox.Fault.{Outcome, ok}
use gdox.Source.{sector_bytes, Source, validate_read}
use gdox.Source.Dispatch.{source_is_valid, source_sector_count, read_buffer}

-- What a read leaves: a handle that is still good, a buffer of the size it had, and, if the read
-- succeeded, the bytes of its sectors in the buffer.
abbrev pub Reads {ℓ} :
    {H : Type ℓ} → (H → Type 0) → Image → ℕ → ℕ → List ℕ → Outcome × List ℕ × H → Type 0
Reads Good img lba blocks output (result, buffer, h) =
    Good h
    × (length buffer ≡ length output)
    × (result ≡ ok → buffer ≡ slice img (lba * sector_bytes) (blocks * sector_bytes))

-- A family of handles that serves an image: each is valid, counts the same sectors, and reads
-- from the image, staying in the family.
pub record Serves {C : Type 0} (Good : Source C → Type 0) (sectors : ℕ) (img : Image) : Type 0 where
  pub fits : sectors < u64_mod
  pub valid : (s : Source C) → Good s → source_is_valid s ≡ true
  pub count : (s : Source C) → Good s → source_sector_count s ≡ sectors
  pub reads :
      (s : Source C) (lba blocks : ℕ) (output : List ℕ)
      → Good s
      → Reads Good img lba blocks output (read_buffer s lba blocks output)

-- Handles whose reads succeed where they are accepted
abbrev pub Reliable : {C : Type 0} → (Source C → Type 0) → ℕ → Type 0
Reliable {C} Good sectors =
    (s : Source C) (lba blocks : ℕ) (output : List ℕ)
    → Good s
    → validate_read sectors lba blocks (length output) ≡ ok
    → (read_buffer s lba blocks output).0 ≡ ok

-- A read with a 32-bit block count is accepted exactly when it asks for at least one block, the
-- buffer has the size of the blocks, and the blocks lie inside the source.
pub validate_read-ok_iff :
    (sectors lba blocks output_bytes : ℕ)
    → blocks < u32_mod
    → (validate_read sectors lba blocks output_bytes ≡ ok)
      ↔ ((blocks ≢ 0) × (output_bytes ≡ blocks * sector_bytes) × (lba + blocks ≤ sectors))
unfolding validate_read
validate_read-ok_iff sectors lba blocks output_bytes h =
    (λ e. (ground arith, ground arith, ground arith), λ e. ground arith)

-- What an accepted read is known to satisfy, for a block count of any size.
pub validate_read-in_bounds :
    (sectors lba blocks output_bytes : ℕ)
    → validate_read sectors lba blocks output_bytes ≡ ok
    → (0 < blocks) × (lba + blocks ≤ sectors)
unfolding validate_read
validate_read-in_bounds sectors lba blocks output_bytes h = (ground arith, ground arith)
