-- ===== src/Source/Partition.antt =====
-- src/core/source.c: the partition source, which shows the sectors of another source from a base
-- on.
pub mod Serve
pub mod Forward
use gdox.Common.{
  ℕ, ◌+◌, ◌-◌, Bool, not, ◌||◌, Option, none, some, List, length, leb, if◌then◌else◌, u64,
}
use gdox.Fault.{invalid_argument, out_of_bounds, internal, Outcome, ok, failed}
use gdox.Source.{
  PhysicalReadStats, MediaObservation, DiscEvidence, SourceOps, Source, validate_read,
}
use gdox.Source.Dispatch.{
  closed_source, handle, source_is_valid, source_sector_count, read_buffer, source_media_present,
  source_observe_media, source_evidence, source_physical_read_stats, source_abort,
  source_prepare_close, source_close,
}

-- `gdox_partition_context`
pub record PartitionContext (C : Type 0) : Type 0 where
  pub inner : Source C
  pub base_lba : ℕ
  pub sectors : ℕ

module _ {C : Type 0} where
  pub partition_sector_count : PartitionContext C → ℕ
  partition_sector_count p = p.sectors

  pub partition_read : PartitionContext C → ℕ → ℕ → List ℕ → Outcome × List ℕ × PartitionContext C
  partition_read p lba blocks output = elim (validate_read p.sectors lba blocks (length output)) [
    | failed code ↦ (failed code, output, p)
    | ok ↦
        let (result, buffer, inner) = read_buffer p.inner (u64 (p.base_lba + lba)) blocks output in
        (result, buffer, record p { inner = inner })
  ]

  pub partition_media_present : PartitionContext C → Bool
  partition_media_present p = source_media_present p.inner

  pub partition_observe_media : PartitionContext C → MediaObservation → MediaObservation
  partition_observe_media p output = (source_observe_media p.inner).1

  pub partition_evidence : PartitionContext C → DiscEvidence → Bool × DiscEvidence
  partition_evidence p output = source_evidence p.inner

  pub partition_physical_read_stats :
      PartitionContext C → PhysicalReadStats → Bool × PhysicalReadStats
  partition_physical_read_stats p output = source_physical_read_stats p.inner

  pub partition_close : PartitionContext C → Outcome
  partition_close p = (source_close p.inner).0

  pub partition_prepare_close : PartitionContext C → Outcome × PartitionContext C
  partition_prepare_close p =
      let (result, inner) = source_prepare_close p.inner in (result, record p { inner = inner })

  pub partition_abort : PartitionContext C → PartitionContext C
  partition_abort p = record p { inner = source_abort p.inner }

  abbrev pub partition_ops : SourceOps (PartitionContext C)
  partition_ops = record {
    sector_count = some partition_sector_count;
    read = some partition_read;
    media_present = some partition_media_present;
    close = some partition_close;
    evidence = some partition_evidence;
    physical_read_stats = some partition_physical_read_stats;
    abort = some partition_abort;
    prepare_close = some partition_prepare_close;
    observe_media = some partition_observe_media;
  }

  -- `gdox_source_make_partition`. A pointer that is `none` is NULL, `same_handle` says that the two
  -- pointers are equal, and `allocated` that `calloc` succeeds. The handles behind the pointers
  -- are returned as the call leaves them.
  pub make_partition :
      (same_handle allocated : Bool)
      → Option (Source C)
      → ℕ
      → Option (Source (PartitionContext C))
      → Outcome × Option (Source C) × Option (Source (PartitionContext C))
  make_partition same_handle allocated none base_lba output =
      (failed invalid_argument, none, output)
  make_partition same_handle allocated (some inner) base_lba none =
      (failed invalid_argument, some inner, none)
  make_partition same_handle allocated (some inner) base_lba (some output) =
      if same_handle || not (source_is_valid inner) || source_is_valid output
      then (failed invalid_argument, some inner, some output)
      else if leb (source_sector_count inner) base_lba
      then (failed out_of_bounds, some inner, some output)
      else if not allocated
      then (failed internal, some inner, some output)
      else (
        ok,
        some closed_source,
        some (
            handle
              (record {
                inner = inner;
                base_lba = base_lba;
                sectors = source_sector_count inner - base_lba;
              })
              partition_ops),
      )
