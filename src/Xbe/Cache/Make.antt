-- ===== src/Xbe/Cache/Make.antt =====
-- src/core/default_xbe_cache_source.c: how the cache is filled and its source made.
pub mod Load
pub mod Planned
pub mod Prepare
pub mod Build
use gdox.Common.{
  ℕ, zero, suc, ◌+◌, ◌-◌, ◌*◌, ◌/◌, Bool, true, false, not, ◌||◌, Option, none, some, List, [], ◌∷◌,
  ◌++◌, ◌⊎◌, inl, inr, get_elem?, take, drop, min, ltb, ◌==◌, if◌then◌else◌, u64, u64_max,
}
use gdox.Fault.{ErrorCode, invalid_argument, out_of_bounds, internal, Outcome, ok, failed}
use gdox.Source.{sector_bytes, Source}
use gdox.Source.Dispatch.{closed_source, handle, source_is_valid, source_sector_count, read_buffer}
use gdox.Disc.Direct.{Malloc}
use gdox.Xdvdfs.{XdvdfsEntry, XdvdfsMetadata}
use gdox.Xbe.{patch_complete_file}
use gdox.Xbe.Cache.{CacheContext, cache_ops}

-- `DEFAULT_XBE_CACHE_MAX_BYTES`
abbrev pub cache_max_bytes : ℕ
cache_max_bytes = 67_108_864

-- `DEFAULT_XBE_CACHE_READ_BLOCKS`
abbrev pub cache_read_blocks : ℕ
cache_read_blocks = 512

-- What `prepare_default_xbe` stores through its pointers
pub record Prepared : Type 0 where
  pub bytes : Option (List ℕ)
  pub start_sector : ℕ
  pub sectors : ℕ

abbrev pub no_cache : Prepared
no_cache = record { bytes = none; start_sector = 0; sectors = 0 }

-- The sectors that hold so many bytes
abbrev pub sectors_of : ℕ → ℕ
sectors_of size = (size + sector_bytes - 1) / sector_bytes

-- The entry that `default_xbe_index` names
unfoldable pub default_entry : XdvdfsMetadata → ℕ → Option XdvdfsEntry
default_entry metadata index = elim metadata.xbe_files [
  | none ↦ none
  | some files ↦ get_elem? files index
]

module _ {C : Type 0} where
  -- The loop that fills the cache, on the part of it that is not filled yet. Each round reads at
  -- least one sector, so that the number of sectors is enough fuel.
  unfoldable pub load_rounds : ℕ → Source C → ℕ → ℕ → List ℕ → Outcome × List ℕ × Source C
  load_rounds zero partition lba remaining cache = (ok, cache, partition)
  load_rounds (suc fuel) partition lba remaining cache =
      let blocks = min remaining cache_read_blocks in
      let (read, part, partition') =
        read_buffer partition lba blocks (take (blocks * sector_bytes) cache) in
      elim (remaining == 0) [
        | true ↦ (ok, cache, partition)
        | false ↦ elim read [
          | failed code ↦ (failed code, part ++ drop (blocks * sector_bytes) cache, partition')
          | ok ↦
              let (result, rest, partition'') =
                load_rounds fuel partition' (u64 (lba + blocks)) (remaining - blocks)
                  (drop (blocks * sector_bytes) cache) in
              (result, part ++ rest, partition'')
        ]
      ]

  -- The end of `prepare_default_xbe`, in the memory of the cache
  unfoldable pub fill_cache : Source C → XdvdfsEntry → List ℕ → (ErrorCode ⊎ Prepared) × Source C
  fill_cache partition entry cache =
      let count = sectors_of entry.size in
      let (result, bytes, partition') =
        load_rounds count partition entry.start_sector count cache in
      elim result [
        | failed code ↦ (inl code, partition')
        | ok ↦ (
          inr (record {
            bytes = some (patch_complete_file bytes entry.size).1;
            start_sector = entry.start_sector;
            sectors = count;
          }),
          partition',
        )
      ]

  -- `prepare_default_xbe` from the entry on
  unfoldable pub prepare_entry : Malloc → Source C → XdvdfsEntry → (ErrorCode ⊎ Prepared) × Source C
  prepare_entry malloc partition entry =
      let count = sectors_of entry.size in
      let all = source_sector_count partition in
      if entry.size == 0 || ltb cache_max_bytes entry.size
      then (inr no_cache, partition)
      else if ltb all entry.start_sector
          || ltb (all - entry.start_sector) count
          || ltb (u64_max / sector_bytes) count
      then (inl out_of_bounds, partition)
      else elim (malloc (count * sector_bytes)) [
        | none ↦ (inl internal, partition)
        | some cache ↦ fill_cache partition entry cache
      ]

  unfoldable pub prepare_default_xbe :
      Malloc → Source C → XdvdfsMetadata → (ErrorCode ⊎ Prepared) × Source C
  prepare_default_xbe malloc partition metadata = elim metadata.default_xbe_index [
    | none ↦ (inr no_cache, partition)
    | some index ↦ elim (default_entry metadata index) [
      | none ↦ (inl invalid_argument, partition)
      | some entry ↦ prepare_entry malloc partition entry
    ]
  ]

  -- The end of the constructor; `allocated` says that `calloc` succeeds.
  unfoldable pub move_into_cache :
      Bool
      → Prepared
      → Source C
      → Source (CacheContext C)
      → Outcome × Option (Source C) × Option (Source (CacheContext C))
  move_into_cache false prepared partition output = (failed internal, some partition, some output)
  move_into_cache true prepared partition output = (
    ok,
    some closed_source,
    some (
        handle
          (record {
            inner = partition;
            bytes = prepared.bytes;
            start_sector = prepared.start_sector;
            sectors = prepared.sectors;
            aborted = false;
          })
          cache_ops),
  )

  -- `gdox_source_make_default_xbe_cache`. A pointer that is `none` is NULL, and `same_handle` says
  -- that the two pointers to handles are equal. The handles are returned as the call leaves them.
  unfoldable pub make_default_xbe_cache :
      Malloc
      → (allocated same_handle : Bool) → Option (Source C)
      → Option XdvdfsMetadata
      → Option (Source (CacheContext C))
      → Outcome × Option (Source C) × Option (Source (CacheContext C))
  make_default_xbe_cache malloc allocated same_handle none metadata output =
      (failed invalid_argument, none, output)
  make_default_xbe_cache malloc allocated same_handle (some partition) none output =
      (failed invalid_argument, some partition, output)
  make_default_xbe_cache malloc allocated same_handle (some partition) (some metadata) none =
      (failed invalid_argument, some partition, none)
  make_default_xbe_cache malloc allocated same_handle (some partition) (some metadata)
        (some output) =
      let (prepared, partition') = prepare_default_xbe malloc partition metadata in
      if same_handle || not (source_is_valid partition) || source_is_valid output
      then (failed invalid_argument, some partition, some output)
      else elim prepared [
        | inl code ↦ (failed code, some partition', some output)
        | inr p ↦ move_into_cache allocated p partition' output
      ]
