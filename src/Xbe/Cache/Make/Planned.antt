-- ===== src/Xbe/Cache/Make/Planned.antt =====
-- src/core/default_xbe_cache_source.c: the cache that is to be made of an image and its metadata.
use gdox.Common.{
  ℕ, ◌+◌, ◌*◌, ◌≤◌, ◌<◌, ◌≡◌, ◌⊎◌, ◌||◌, none, some, ltb, ◌==◌, if◌then◌else◌, Image, slice,
  u64_mod,
}
use gdox.Source.{sector_bytes}
use gdox.Xdvdfs.{XdvdfsEntry, XdvdfsMetadata}
use gdox.Xbe.{patch_complete_file}
use gdox.Xbe.Cache.Shown.{Fits}
use gdox.Xbe.Cache.Make.{Prepared, no_cache, sectors_of, cache_max_bytes, default_entry}

-- The cache of an entry in the image of its partition: the sectors of the executable, patched.
unfoldable pub planned_entry : Image → XdvdfsEntry → Prepared
planned_entry img entry =
    if entry.size == 0 || ltb cache_max_bytes entry.size then no_cache else record {
      bytes =
          some
            (patch_complete_file
              (slice img (entry.start_sector * sector_bytes) (sectors_of entry.size * sector_bytes))
              entry.size).1;
      start_sector = entry.start_sector;
      sectors = sectors_of entry.size;
    }

-- The cache of a partition with some metadata
unfoldable pub planned : Image → XdvdfsMetadata → Prepared
planned img metadata = elim metadata.default_xbe_index [
  | none ↦ no_cache
  | some index ↦ elim (default_entry metadata index) [
    | none ↦ no_cache
    | some entry ↦ planned_entry img entry
  ]
]

-- The entry is not cached, or lies in the partition.
abbrev pub EntryFits : ℕ → XdvdfsEntry → Type 0
EntryFits sectors entry =
    (entry.size ≡ 0)
    ⊎ ((cache_max_bytes < entry.size) ⊎ (entry.start_sector + sectors_of entry.size ≤ sectors))

-- The metadata names no default executable, or one that it has.
abbrev pub MetadataFits : ℕ → XdvdfsMetadata → Type 0
MetadataFits sectors metadata =
    (metadata.default_xbe_index ≡ none)
    ⊎ ((index : ℕ) × (entry : XdvdfsEntry) × (metadata.default_xbe_index ≡ some index)
        × (default_entry metadata index ≡ some entry)
        × EntryFits sectors entry)

abbrev pub PreparedFits : ℕ → Prepared → Type 0
PreparedFits sectors p =
    Fits p.bytes p.start_sector p.sectors sectors × (p.start_sector + p.sectors < u64_mod)
