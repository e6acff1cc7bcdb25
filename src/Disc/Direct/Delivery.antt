-- ===== src/Disc/Direct/Delivery.antt =====
-- Which reads of the direct disc of src/core/disc.c succeed.
use gdox.Common.{
  ℕ, ◌+◌, ◌-◌, ◌*◌, ◌/◌, ◌%◌, ◌≤◌, ◌<◌, ◌≡◌, refl, Bool-cases, inl, inr, some, List, length,
  length-take, take, u64, u64_max, ltb, leb, ◌==◌, ◌||◌, u32_max, if◌then◌else◌, arith,
}
use gdox.Fault.{ok}
use gdox.Source.{sector_bytes, Source, validate_read}
use gdox.Source.Dispatch.{read_buffer}
use gdox.Source.Image.{validate_read-ok_iff}
use gdox.Disc.Dispatch.{opened_disc, disc_read_buffer}
use gdox.Disc.Direct.{DirectContext, Malloc, direct_read_sectors, direct_read_span, direct_read_at}
use gdox.Disc.Direct.Serve.{direct_on}

-- A source whose reads succeed wherever the bounds admit them.
abbrev pub Delivers : {C : Type 0} → Source C → ℕ → Type 0
Delivers s sectors =
    (lba blocks : ℕ) (output : List ℕ)
    → validate_read sectors lba blocks (length output) ≡ ok
    → (read_buffer s lba blocks output).0 ≡ ok

-- Memory that gives each block that is asked of it.
abbrev pub Gives : Malloc → Type 0
Gives malloc = (n : ℕ) → (block : List ℕ) × (malloc n ≡ some block) × (length block ≡ n)

module _ {C : Type 0} (source : Source C) (sectors : ℕ) (delivers : Delivers source sectors)
    (small : sectors ≤ u64_max / sector_bytes) (malloc : Malloc) (gives : Gives malloc) where
  abbrev context : DirectContext C
  context = record { source = source; length = sectors * sector_bytes }

  sectors_succeed :
      (offset r : ℕ) (output : List ℕ)
      → offset % sector_bytes ≡ 0
      → r % sector_bytes ≡ 0
      → 0 < r
      → r ≤ length output
      → r ≤ u32_max
      → offset + r ≤ sectors * sector_bytes
      → (direct_read_sectors context (offset / sector_bytes) r output).0 ≡ ok
  unfolding direct_read_sectors
  sectors_succeed offset r output aligned whole some_bytes room few inside =
      let read = delivers (offset / sector_bytes) (r / sector_bytes) (take r output) (
        (validate_read-ok_iff sectors (offset / sector_bytes) (r / sector_bytes) _ (omega arith)).1
          (omega arith, omega (arith, length-take r output), omega arith)) in
      ground arith

  span_succeeds :
      (offset r : ℕ) (output : List ℕ)
      → 0 < r
      → r ≤ u32_max
      → offset + r ≤ sectors * sector_bytes
      → (direct_read_span malloc context (offset / sector_bytes) (offset % sector_bytes) r output).0
        ≡ ok
  unfolding direct_read_span
  span_succeeds offset r output some_bytes few inside =
      let block_count = u64 (offset % sector_bytes + r + sector_bytes - 1) / sector_bytes in
      let (block, given, size) = gives (u64 (block_count * sector_bytes)) in
      let read = delivers (offset / sector_bytes) block_count block (
        (validate_read-ok_iff sectors (offset / sector_bytes) block_count _ (omega arith)).1
          (omega arith, omega arith, omega arith)) in
      ground arith

  -- If the source delivers what its bounds admit and there is memory, then a read into a buffer of
  -- at most 2^32 - 1 bytes succeeds at every offset, past the end of the disc included.
  pub disc_read-succeeds :
      (offset : ℕ) (output : List ℕ)
      → length output ≤ u32_max
      → (disc_read_buffer (direct_on malloc source (sectors * sector_bytes)) offset output).0 ≡ ok
  unfolding disc_read_buffer opened_disc direct_read_at
  disc_read-succeeds offset output few =
      let remaining = sectors * sector_bytes - offset in
      let r = if ltb remaining (length output) then remaining else length output in
      elim (Bool-cases (length output == 0 || leb (sectors * sector_bytes) offset)) [
        | inl nothing ↦ rw nothing refl
        | inr something ↦
            ground (arith, sectors_succeed offset r output, span_succeeds offset r output)
      ]
