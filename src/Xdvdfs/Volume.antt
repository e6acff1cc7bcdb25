-- ===== src/Xdvdfs/Volume.antt =====
-- src/core/xdvdfs.c: the search for the volume descriptor.
pub mod Sector
pub mod Scan
pub mod Find
use gdox.Common.{
  ℕ, zero, suc, ◌+◌, ◌-◌, ◌*◌, ◌/◌, ◌^◌, Bool, true, false, not, ◌&&◌, ◌||◌, Option, none, some,
  List, [], ◌∷◌, ◌++◌, ◌⊎◌, inl, inr, get_or, take, drop, replicate, min, ltb, ◌==◌, if◌then◌else◌,
  u64,
}
use gdox.Common.Compare.{same_bytes}
use gdox.Fault.{ErrorCode, invalid_argument, invalid_volume, internal, Outcome, ok, failed}
use gdox.Source.{sector_bytes, Source}
use gdox.Source.Dispatch.{source_is_valid, source_sector_count, read_buffer}
use gdox.Disc.Direct.{Malloc}
use gdox.Xdvdfs.{XdvdfsVolume}

-- GDOX_XDVDFS_VOLUME_DESCRIPTOR_SECTOR and GDOX_XDVDFS_COMMON_GAME_BASE_LBA
abbrev pub descriptor_sector : ℕ
descriptor_sector = 32

abbrev pub common_game_base_lba : ℕ
common_game_base_lba = 198_144

-- GDOX_XDVDFS_MAX_DIRECTORY_BYTES and GDOX_XDVDFS_SCAN_BATCH
abbrev pub max_directory_bytes : ℕ
max_directory_bytes = 67_108_864

abbrev pub scan_batch : ℕ
scan_batch = 256

-- `xdvdfs_magic`, "MICROSOFT*XBOX*MEDIA"
abbrev pub xdvdfs_magic : List ℕ
xdvdfs_magic =
    77 ∷ 73 ∷ 67 ∷ 82 ∷ 79 ∷ 83 ∷ 79 ∷ 70 ∷ 84 ∷ 42 ∷ 88 ∷ 66 ∷ 79 ∷ 88 ∷ 42 ∷ 77 ∷ 69 ∷ 68 ∷ 73
    ∷ 65 ∷ []

-- `read_le_u32`, for data of so many bytes
unfoldable pub read_le_u32 : List ℕ → ℕ → ℕ → Option ℕ
read_le_u32 bytes count offset =
    if ltb count offset || ltb (count - offset) 4
    then none
    else some (
        get_or bytes offset 0
        + get_or bytes (offset + 1) 0 * 2 ^ 8
        + get_or bytes (offset + 2) 0 * 2 ^ 16
        + get_or bytes (offset + 3) 0 * 2 ^ 24)

-- `read_le_u64`
unfoldable pub read_le_u64 : List ℕ → ℕ → ℕ → Option ℕ
read_le_u64 bytes count offset = elim (read_le_u32 bytes count offset) [
  | none ↦ none
  | some low ↦ elim (read_le_u32 bytes count (offset + 4)) [
    | none ↦ none
    | some high ↦ some (low + high * 2 ^ 32)
  ]
]

-- `descriptor_magic_valid`
unfoldable pub descriptor_magic_valid : List ℕ → Bool
descriptor_magic_valid sector =
    same_bytes (take 20 sector) xdvdfs_magic && same_bytes (take 20 (drop 2028 sector)) xdvdfs_magic

-- `parse_descriptor`, once the three fields are read
unfoldable pub volume_of : ℕ → ℕ → ℕ → ℕ → ErrorCode ⊎ XdvdfsVolume
volume_of lba root_sector root_size timestamp =
    if root_size == 0 || ltb max_directory_bytes root_size
    then inl invalid_volume
    else inr (record {
      base_lba = lba - descriptor_sector;
      root_directory_sector = root_sector;
      root_directory_size = root_size;
      image_timestamp = timestamp;
    })

-- `parse_descriptor`
unfoldable pub parse_descriptor : List ℕ → ℕ → ErrorCode ⊎ XdvdfsVolume
parse_descriptor sector lba =
    if ltb lba descriptor_sector then inl invalid_volume else elim (read_le_u32 sector 2048 20) [
      | none ↦ inl invalid_volume
      | some root_sector ↦ elim (read_le_u32 sector 2048 24) [
        | none ↦ inl invalid_volume
        | some root_size ↦ elim (read_le_u64 sector 2048 28) [
          | none ↦ inl invalid_volume
          | some timestamp ↦ volume_of lba root_sector root_size timestamp
        ]
      ]
    ]

-- What a search tells: that it failed, that it came to its end, or the volume.
pub data Probe : Type 0 where
  broken : ErrorCode → Probe
  nothing : Probe
  found : XdvdfsVolume → Probe

unfoldable pub parsed : ErrorCode ⊎ XdvdfsVolume → Probe
parsed (inl code) = broken code
parsed (inr volume) = found volume

-- What is known of a sector once it is read: `descriptor_magic_valid`, then `parse_descriptor`
unfoldable pub inspect_sector : List ℕ → ℕ → Probe
inspect_sector sector lba =
    if descriptor_magic_valid sector then parsed (parse_descriptor sector lba) else nothing

-- The bytes of a buffer up to the end of its first sector, and those behind
unfoldable pub first_sector : List ℕ → List ℕ
first_sector batch = take sector_bytes batch

unfoldable pub later_sectors : List ℕ → List ℕ
later_sectors batch = drop sector_bytes batch

-- What a search that was not at its end yet goes on with
abbrev pub or_else : Probe → Probe → Probe
or_else nothing rest = rest
or_else (broken code) rest = broken code
or_else (found volume) rest = found volume

-- The loop of `inspect_descriptor_batch`
unfoldable pub inspect_descriptor_batch : ℕ → List ℕ → ℕ → Probe
inspect_descriptor_batch zero batch lba = nothing
inspect_descriptor_batch (suc blocks) batch lba =
    let rest = inspect_descriptor_batch blocks (later_sectors batch) (lba + 1) in
    or_else (inspect_sector (first_sector batch) lba) rest

-- The array of `probe_descriptor` before it is filled; what an array that is not initialised holds
-- does not matter.
unfoldable pub blank_sector : List ℕ
blank_sector = replicate sector_bytes 0

module _ {C : Type 0} where
  unfoldable pub probe_descriptor : Source C → ℕ → Probe × Source C
  probe_descriptor s lba =
      let (result, sector, s') = read_buffer s lba 1 blank_sector in
      elim result [ failed code ↦ (broken code, s') | ok ↦ (inspect_sector sector lba, s') ]

  -- The loop of `probe_descriptor_batch`
  unfoldable pub probe_descriptor_batch : ℕ → Source C → ℕ → Probe × Source C
  probe_descriptor_batch zero s lba = (nothing, s)
  probe_descriptor_batch (suc blocks) s lba =
      let (probe, s') = probe_descriptor s lba in
      elim probe [
        | nothing ↦ probe_descriptor_batch blocks s' (lba + 1)
        | broken code ↦ (broken code, s')
        | found volume ↦ (found volume, s')
      ]

  -- What a round of the scan finds in its blocks: by one read, or by a read for each sector where
  -- that fails.
  unfoldable pub scan_blocks : Source C → ℕ → ℕ → List ℕ → Probe × List ℕ × Source C
  scan_blocks s lba blocks batch =
      let (result, read, s') = read_buffer s lba blocks (take (blocks * sector_bytes) batch) in
      let batch' = read ++ drop (blocks * sector_bytes) batch in
      elim result [
        | ok ↦ (inspect_descriptor_batch blocks read lba, batch', s')
        | failed code ↦
            if ltb 1 blocks
            then (let (probe, s'') = probe_descriptor_batch blocks s' lba in (probe, batch', s''))
            else (broken code, batch', s')
      ]

  -- The `while` of `scan_range`. Each round takes at least one sector, so that the length of the
  -- range is enough fuel.
  unfoldable pub scan_rounds : ℕ → Source C → ℕ → ℕ → List ℕ → Probe × Source C
  scan_rounds zero s lba end batch = (nothing, s)
  scan_rounds (suc fuel) s lba end batch =
      let blocks = min (end - lba) scan_batch in
      let (probe, batch', s') = scan_blocks s lba blocks batch in
      elim (ltb lba end) [
        | false ↦ (nothing, s)
        | true ↦ elim probe [
          | nothing ↦ scan_rounds fuel s' (u64 (lba + blocks)) end batch'
          | broken code ↦ (broken code, s')
          | found volume ↦ (found volume, s')
        ]
      ]

  unfoldable pub scan_range : Malloc → Source C → ℕ → ℕ → Probe × Source C
  scan_range malloc s start end = elim (malloc (scan_batch * sector_bytes)) [
    | none ↦ (broken internal, s)
    | some batch ↦ scan_rounds (end - start) s start end batch
  ]

  -- A step of the search, unless it has ended before: a probe of a sector or of a range.
  abbrev pub then_look : Probe × Source C → (Source C → Probe × Source C) → Probe × Source C
  then_look (nothing, s) look = look s
  then_look (broken code, s) look = (broken code, s)
  then_look (found volume, s) look = (found volume, s)

  -- The search from the preferred sectors to the rest of the source
  unfoldable pub search_volume : Malloc → Source C → ℕ → Probe × Source C
  search_volume malloc s sectors =
      let quick_end = min sectors 262_144 in
      let common = common_game_base_lba + descriptor_sector in
      let first =
        if ltb descriptor_sector sectors
        then probe_descriptor s descriptor_sector
        else (nothing, s) in
      let second =
        then_look first
          (λ t. if ltb common sectors then probe_descriptor t common else (nothing, t)) in
      let quick =
        then_look second
          (λ t. if quick_end == 0 then (nothing, t) else scan_range malloc t 0 quick_end) in
      then_look quick
        (λ t. if ltb quick_end sectors then scan_range malloc t quick_end sectors else (nothing, t))

  -- The result of the call, once the search has ended
  abbrev pub volume_result : Probe × Source C → (ErrorCode ⊎ XdvdfsVolume) × Source C
  volume_result (nothing, s) = (inl invalid_volume, s)
  volume_result (broken code, s) = (inl code, s)
  volume_result (found volume, s) = (inr volume, s)

  -- `gdox_xdvdfs_find_volume` with a place for the volume, which is written where the call returns
  -- `true` and nowhere else
  unfoldable pub find_volume : Malloc → Source C → (ErrorCode ⊎ XdvdfsVolume) × Source C
  find_volume malloc s =
      if not (source_is_valid s)
      then (inl invalid_argument, s)
      else volume_result (search_volume malloc s (source_sector_count s))
