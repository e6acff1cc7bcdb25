-- ===== src/Disc/Direct.antt =====
-- src/core/disc.c: the direct disc, which reads bytes through the sectors of a source.
pub mod Spans
pub mod Serve
pub mod Delivery
pub mod Forward
use gdox.Common.{
  ℕ, ◌+◌, ◌-◌, ◌*◌, ◌/◌, ◌%◌, Bool, true, false, not, ◌&&◌, ◌||◌, Option, none, some, List, ◌++◌,
  length, take, drop, ltb, leb, ◌==◌, if◌then◌else◌, u64, u64_max, u32_max,
}
use gdox.Fault.{
  ErrorCode, invalid_argument, out_of_bounds, invalid_source, internal, Outcome, ok, failed,
}
use gdox.Source.{sector_bytes, PhysicalReadStats, MediaObservation, Source}
use gdox.Source.Dispatch.{
  closed_source, source_is_valid, source_sector_count, read_buffer, source_media_present,
  source_observe_media, source_physical_read_stats, source_abort, source_prepare_close,
  source_close,
}
use gdox.Disc.{DiscOps, Disc}
use gdox.Disc.Dispatch.{disc_handle, disc_is_valid}

-- `direct_disc_context`
pub record DirectContext (C : Type 0) : Type 0 where
  pub source : Source C
  pub length : ℕ

-- `malloc` of a number of bytes: NULL, or a block with contents that are not known.
abbrev pub Malloc : Type 0
Malloc = ℕ → Option (List ℕ)

module _ {C : Type 0} where
  pub direct_length : DirectContext C → ℕ
  direct_length c = c.length

  -- A read of whole sectors, straight into the caller's buffer.
  pub direct_read_sectors :
      DirectContext C → ℕ → ℕ → List ℕ → Outcome × List ℕ × ℕ × DirectContext C
  direct_read_sectors c first_sector readable output =
      let (result, buffer, source) =
        read_buffer c.source first_sector (readable / sector_bytes) (take readable output) in
      elim result [
        | failed code ↦
            (failed code, buffer ++ drop readable output, 0, record c { source = source })
        | ok ↦ (ok, buffer ++ drop readable output, readable, record c { source = source })
      ]

  -- Any other read, through a block of whole sectors.
  pub direct_read_span :
      Malloc → DirectContext C → ℕ → ℕ → ℕ → List ℕ → Outcome × List ℕ × ℕ × DirectContext C
  direct_read_span malloc c first_sector within readable output =
      let span = within + readable in
      let block_count = u64 (span + sector_bytes - 1) / sector_bytes in
      if ltb u32_max block_count || ltb (u64_max / sector_bytes) block_count
      then (failed out_of_bounds, output, 0, c)
      else elim (malloc (u64 (block_count * sector_bytes))) [
        | none ↦ (failed internal, output, 0, c)
        | some block ↦
            let (result, aligned, source) = read_buffer c.source first_sector block_count block in
            elim result [
              | failed code ↦ (failed code, output, 0, record c { source = source })
              | ok ↦ (
                ok,
                take readable (drop within aligned) ++ drop readable output,
                readable,
                record c { source = source },
              )
            ]
      ]

  pub direct_read_at :
      Malloc → DirectContext C → ℕ → List ℕ → Outcome × List ℕ × ℕ × DirectContext C
  direct_read_at malloc c offset output =
      let remaining = c.length - offset in
      let readable = if ltb remaining (length output) then remaining else length output in
      let first_sector = offset / sector_bytes in
      let within = offset % sector_bytes in
      if length output == 0 || leb c.length offset
      then (ok, output, 0, c)
      else if ltb (u64_max - within) readable
      then (failed out_of_bounds, output, 0, c)
      else if within == 0 && readable % sector_bytes == 0 && leb (readable / sector_bytes) u32_max
      then direct_read_sectors c first_sector readable output
      else direct_read_span malloc c first_sector within readable output

  pub direct_media_present : DirectContext C → Bool
  direct_media_present c = source_media_present c.source

  pub direct_observe_media : DirectContext C → MediaObservation → MediaObservation
  direct_observe_media c output = (source_observe_media c.source).1

  pub direct_physical_read_stats : DirectContext C → PhysicalReadStats → Bool × PhysicalReadStats
  direct_physical_read_stats c output = source_physical_read_stats c.source

  pub direct_close : DirectContext C → Outcome
  direct_close c = (source_close c.source).0

  pub direct_prepare_close : DirectContext C → Outcome × DirectContext C
  direct_prepare_close c =
      let (result, source) = source_prepare_close c.source in (result, record c { source = source })

  pub direct_abort : DirectContext C → DirectContext C
  direct_abort c = record c { source = source_abort c.source }

  abbrev pub direct_ops : Malloc → DiscOps (DirectContext C)
  direct_ops malloc = record {
    length = some direct_length;
    read_at = some (direct_read_at malloc);
    media_present = some direct_media_present;
    close = some direct_close;
    physical_read_stats = some direct_physical_read_stats;
    abort = some direct_abort;
    prepare_close = some direct_prepare_close;
    observe_media = some direct_observe_media;
  }

  -- `source_length`: `none` where the byte length overflows
  pub source_length : Source C → Option ℕ
  source_length s =
      let sectors = source_sector_count s in
      if ltb (u64_max / sector_bytes) sectors then none else some (u64 (sectors * sector_bytes))

  -- `gdox_disc_from_source`, with the two handles as it leaves them; `none` is a NULL `disc`, and
  -- `allocated` says whether the allocation of the context succeeds.
  pub disc_from_source :
      Malloc
      → (allocated : Bool) → Source C
      → Option (Disc (DirectContext C))
      → Outcome × Source C × Option (Disc (DirectContext C))
  disc_from_source malloc allocated source none = (failed invalid_argument, source, none)
  disc_from_source malloc allocated source (some disc) =
      if not (source_is_valid source) || disc_is_valid disc
      then (failed invalid_argument, source, some disc)
      else elim (source_length source) [
        | none ↦ (failed invalid_source, source, some disc)
        | some length ↦ if not allocated then (failed internal, source, some disc) else (
          ok,
          closed_source,
          some (disc_handle (record { source = source; length = length }) (direct_ops malloc)),
        )
      ]
