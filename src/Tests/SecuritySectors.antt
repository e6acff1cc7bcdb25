-- ===== src/Tests/SecuritySectors.antt =====
-- The theorems on security sectors, at a sector with sixteen ranges.
use gdox.Common.{
  ℕ, zero, suc, ◌+◌, ◌/◌, ◌%◌, ◌^◌, ◌≡◌, refl, ◌↔◌, inr, true, some, List, [], ◌∷◌, ◌++◌, length,
  take, drop, replicate, arith,
}
use gdox.Common.Compare.{same_bytes}
use gdox.Fault.{ok}
use gdox.Security.{
  SecurityRange, range_count, data_start_psn, u24, psn_to_lba, range_length, range_is_valid,
  validate_loop, ranges_validate,
}
use gdox.Security.Physical.{physical, psn_to_lba-physical}
use gdox.Security.Ranges.{AreRanges, ranges_validate-ok_iff}
use gdox.Security.Inspect.{
  Report, crc32, fixed_sector, security_sector_bytes, table_bytes, table_one, table_two, is_xgd1,
  tables_agree, read_ranges, report_of, inspect, inspect-passes,
}

psn_to_lba-physical_example : psn_to_lba (physical 2_000_000) ≡ some 2_000_000
psn_to_lba-physical_example = psn_to_lba-physical 2_000_000 (ground arith)

-- Ranges from a sector on, with a gap behind each.
abbrev spaced : ℕ → ℕ → List SecurityRange
spaced zero lba = []
spaced (suc n) lba = record { start_lba = lba; end_lba = lba + 4_095 } ∷ spaced n (lba + 5_000)

abbrev ranges : List SecurityRange
ranges = spaced 16 10_000

ranges_validate-ok_iff_example : (ranges_validate (some ranges) ≡ ok) ↔ AreRanges 0 ranges
ranges_validate-ok_iff_example = ranges_validate-ok_iff ranges refl

abbrev put_u24 : ℕ → List ℕ
put_u24 n = n / 2 ^ 16 % 256 ∷ n / 2 ^ 8 % 256 ∷ n % 256 ∷ []

abbrev entries : List SecurityRange → List ℕ
entries [] = []
entries (r ∷ rs) =
    replicate 3 0
    ++ (put_u24 (data_start_psn + r.start_lba)
        ++ (put_u24 (data_start_psn + r.end_lba) ++ entries rs))

abbrev table : List ℕ
table = entries ranges ++ replicate 63 0

abbrev sector : List ℕ
sector =
    replicate 13 0
    ++ (0x20 ∷ 0x33 ∷ 0xaf ∷ replicate 1_617 0 ++ (table ++ (table ++ replicate 1 0)))

abbrev report : Report
report = record {
  raw_crc32 = crc32 sector;
  fixed_xgd1_crc32 = crc32 (fixed_sector sector);
  ranges = ranges;
  range_count = 16;
  normalized_sectors = 65_536;
}

inspected : inspect (some sector) ≡ inr report
unfolding inspect is_xgd1 tables_agree read_ranges report_of u24 psn_to_lba range_length
    range_is_valid validate_loop ranges_validate same_bytes
inspected = refl

inspect-passes_example :
    (length sector ≡ security_sector_bytes)
    × (is_xgd1 sector ≡ true)
    × (take table_bytes (drop table_one sector) ≡ take table_bytes (drop table_two sector))
    × (read_ranges sector range_count table_one ≡ some ranges)
    × AreRanges 0 ranges
    × (report.raw_crc32 ≡ crc32 sector)
    × (report.fixed_xgd1_crc32 ≡ crc32 (fixed_sector sector))
inspect-passes_example = inspect-passes sector report inspected
