-- ===== src/Security.antt =====
-- include/gdox/security.h and src/core/security.c: the security sector of an Xbox disc, whose table
-- names the ranges of the disc that hold no data, by the physical numbers of their sectors.
pub mod Ranges
pub mod Physical
pub mod Inspect
use gdox.Common.{
  ℕ, zero, suc, ◌+◌, ◌-◌, ◌*◌, ◌/◌, ◌%◌, ◌^◌, Bool, true, false, not, ◌&&◌, ◌||◌, Option, none,
  some, List, [], ◌∷◌, get_or, ltb, leb, ◌==◌, if◌then◌else◌, u32, u64,
}
use gdox.Fault.{invalid_argument, invalid_source, Outcome, ok, failed}

-- GDOX_DVD_DATA_START_PSN, GDOX_XGD1_LAYER_ZERO_SECTORS and the `boundary` of the layers
abbrev pub data_start_psn : ℕ
data_start_psn = 0x03_0000

abbrev pub layer_zero_sectors : ℕ
layer_zero_sectors = 1_913_776

abbrev pub boundary : ℕ
boundary = 2_110_384

-- GDOX_XGD1_SECURITY_RANGE_COUNT, GDOX_XGD1_RANGE_SECTORS, GDOX_XGD1_NORMALIZED_SECTORS and
-- GDOX_XGD1_REDUMP_SECTORS
abbrev pub range_count : ℕ
range_count = 16

abbrev pub range_sectors : ℕ
range_sectors = 4_096

abbrev pub normalized_sectors : ℕ
normalized_sectors = 65_536

abbrev pub redump_sectors : ℕ
redump_sectors = 3_820_880

-- `gdox_security_range`
pub record SecurityRange : Type 0 where
  pub start_lba : ℕ
  pub end_lba : ℕ

-- `gdox_u24(bytes + at)`
unfoldable pub u24 : List ℕ → ℕ → ℕ
u24 bytes at =
    get_or bytes at 0 * 2 ^ 16 + get_or bytes (at + 1) 0 * 2 ^ 8 + get_or bytes (at + 2) 0

-- `psn ^ 0x00ffffff`: the low 24 bits are flipped, the others stay.
abbrev pub flip_24 : ℕ → ℕ
flip_24 psn = psn / 2 ^ 24 * 2 ^ 24 + (2 ^ 24 - 1 - psn % 2 ^ 24)

-- `gdox_psn_to_lba` with a pointer that is not NULL
unfoldable pub psn_to_lba : ℕ → Option ℕ
psn_to_lba psn =
    let inverted = u32 (flip_24 psn + 1) in
    let doubled_boundary = u32 (boundary * 2) in
    if ltb psn boundary
    then (if ltb psn data_start_psn then none else some (psn - data_start_psn))
    else if ltb (doubled_boundary - data_start_psn) inverted
    then none
    else some (doubled_boundary - inverted - data_start_psn)

-- `gdox_security_range_length`
unfoldable pub range_length : SecurityRange → ℕ
range_length range =
    if ltb range.end_lba range.start_lba then 0 else u64 (range.end_lba - range.start_lba + 1)

-- A round of the loop of `gdox_security_ranges_validate`, but for the sum; the first range has no
-- range before it.
unfoldable pub range_is_valid : Option SecurityRange → SecurityRange → Bool
range_is_valid before range =
    not (ltb range.end_lba range.start_lba || leb redump_sectors range.end_lba)
    && range_length range == range_sectors
    && elim before [ none ↦ true | some b ↦ ltb b.end_lba range.start_lba ]

-- The loop: the total, or `none` where a range is refused.
unfoldable pub validate_loop : Option SecurityRange → List SecurityRange → ℕ → Option ℕ
validate_loop before [] total = some total
validate_loop before (range ∷ ranges) total =
    let rest = validate_loop (some range) ranges (u64 (total + range_length range)) in
    if range_is_valid before range then rest else none

-- `gdox_security_ranges_validate`; `none` is a NULL array.
unfoldable pub ranges_validate : Option (List SecurityRange) → Outcome
ranges_validate none = failed invalid_argument
ranges_validate (some ranges) = elim (validate_loop none ranges 0) [
  | none ↦ failed invalid_source
  | some total ↦ if total == normalized_sectors then ok else failed invalid_source
]
