-- ===== src/Source/Lifecycle.antt =====
-- src/core/source.c: which reads a handle lets through, and what keeps it open.
use gdox.Common.{ℕ, ◌+◌, ◌*◌, ◌<◌, ◌≤◌, ◌≡◌, ◌≢◌, true, some, List, length, u32_mod, arith}
use gdox.Fault.{ok}
use gdox.Source.{sector_bytes, Source, validate_read}
use gdox.Source.Image.{validate_read-ok_iff}
use gdox.Source.Dispatch.{
  Opened, read_through, opened, source_is_valid, source_sector_count, read_buffer,
  source_prepare_close,
}

module _ {C : Type 0} where
  read_buffer_passes :
      (s : Source C) (lba blocks : ℕ) (output : List ℕ)
      → ((read_buffer s lba blocks output).0 ≡ ok
          → (source_is_valid s ≡ true)
            × (validate_read (source_sector_count s) lba blocks (length output) ≡ ok))
        × (validate_read (source_sector_count s) lba blocks (length output) ≢ ok
            → ((read_buffer s lba blocks output).0 ≢ ok)
              × ((read_buffer s lba blocks output).1 ≡ output)
              × ((read_buffer s lba blocks output).2 ≡ s))
  unfolding read_buffer source_is_valid source_sector_count
  read_buffer_passes s lba blocks output =
      (λ h. (ground arith, ground arith), λ h. (ground arith, ground arith, ground arith))

  read_buffer_forwards :
      (s : Source C) (o : Opened C) (lba blocks : ℕ) (output : List ℕ)
      → opened s ≡ some o
      → validate_read (source_sector_count s) lba blocks (length output) ≡ ok
      → read_buffer s lba blocks output ≡ read_through s o lba blocks output
  unfolding read_buffer source_sector_count
  read_buffer_forwards s o lba blocks output e h = ground arith

  -- A read of at least one block, into a buffer of the size of its blocks, that ends in the source.
  abbrev pub InBounds : Source C → ℕ → ℕ → List ℕ → Type 0
  InBounds s lba blocks output =
      (blocks ≢ 0)
      × (length output ≡ blocks * sector_bytes)
      × (lba + blocks ≤ source_sector_count s)

  -- Of a read with a 32-bit count of blocks: if it succeeds, the handle is open and the read lies in
  -- its bounds; out of its bounds, it fails and changes neither the buffer nor the handle; in its
  -- bounds, it is handed to the device of the open handle.
  pub read_buffer_checked :
      (s : Source C) (lba blocks : ℕ) (output : List ℕ)
      → blocks < u32_mod
      → ((read_buffer s lba blocks output).0 ≡ ok
          → (source_is_valid s ≡ true) × InBounds s lba blocks output)
        × (¬ InBounds s lba blocks output
            → ((read_buffer s lba blocks output).0 ≢ ok)
              × ((read_buffer s lba blocks output).1 ≡ output)
              × ((read_buffer s lba blocks output).2 ≡ s))
        × ((o : Opened C)
            → opened s ≡ some o
            → InBounds s lba blocks output
            → read_buffer s lba blocks output ≡ read_through s o lba blocks output)
  read_buffer_checked s lba blocks output small =
      let (in_bounds, accepted) =
        validate_read-ok_iff (source_sector_count s) lba blocks (length output) small in
      let (passes, refuses) = read_buffer_passes s lba blocks output in
      (
        λ h. let (valid, passed) = passes h in (valid, in_bounds passed),
        λ out. refuses (λ passed. out (in_bounds passed)),
        λ o e inside. read_buffer_forwards s o lba blocks output e (accepted inside),
      )

  -- Whether a handle is open does not depend on what its context holds.
  pub source_is_valid-context :
      (s : Source C) (c : C)
      → source_is_valid s ≡ true
      → source_is_valid (record s { context = some c }) ≡ true
  unfolding source_is_valid opened
  source_is_valid-context s c h = ground arith

  -- Preparing keeps an open handle open, whatever the result.
  pub source_prepare_close-valid :
      (s : Source C) → source_is_valid s ≡ true → source_is_valid (source_prepare_close s).1 ≡ true
  unfolding source_is_valid source_prepare_close opened
  source_prepare_close-valid s h = ground arith
