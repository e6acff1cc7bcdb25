-- ===== src/Security/Inspect.antt =====
-- src/core/security.c: the inspection of a security sector, and which sectors pass it.
use Prim.Native.Nat.{bit_xor}
use gdox.Common.{
  ℕ, zero, suc, ◌+◌, ◌-◌, ◌/◌, ◌%◌, ◌≡◌, refl, sym, ap, ◌∙◌, ◌⊎◌, inl, inr, Bool, true, not, ◌&&◌,
  Option, none, some, List, [], ◌∷◌, ◌++◌, length, take, drop, replicate, get_or, ◌==◌,
  if◌then◌else◌, Bool-cases, Option-cases, u32_max, arith,
}
use gdox.Common.Compare.{same_bytes, same_bytes-≡}
use gdox.Fault.{ErrorCode, invalid_argument, invalid_source, ok, failed}
use gdox.Security.{SecurityRange, range_count, normalized_sectors, u24, psn_to_lba, ranges_validate}
use gdox.Security.Ranges.{AreRanges, ranges_validate-ok_iff}

-- A round of the inner loop of `gdox_crc32`, and its eight rounds for a byte.
abbrev pub crc_bit : ℕ → ℕ
crc_bit crc = if crc % 2 == 1 then bit_xor (crc / 2) 0xedb8_8320 else crc / 2

abbrev pub crc_byte : ℕ → ℕ → ℕ
crc_byte crc byte =
    crc_bit (crc_bit (crc_bit (crc_bit (crc_bit (crc_bit (crc_bit (crc_bit (bit_xor crc byte))))))))

abbrev pub crc_loop : ℕ → List ℕ → ℕ
crc_loop crc [] = crc
crc_loop crc (byte ∷ bytes) = crc_loop (crc_byte crc byte) bytes

-- `gdox_crc32`
unfoldable pub crc32 : List ℕ → ℕ
crc32 bytes = u32_max - crc_loop u32_max bytes

-- GDOX_SECURITY_TABLE_ONE, GDOX_SECURITY_TABLE_TWO, `table_bytes` and the size of a sector
abbrev pub table_one : ℕ
table_one = 1_633

abbrev pub table_two : ℕ
table_two = 1_840

abbrev pub table_bytes : ℕ
table_bytes = 207

abbrev pub security_sector_bytes : ℕ
security_sector_bytes = 2_048

-- `gdox_security_sector_report`
pub record Report : Type 0 where
  pub raw_crc32 : ℕ
  pub fixed_xgd1_crc32 : ℕ
  pub ranges : List SecurityRange
  pub range_count : ℕ
  pub normalized_sectors : ℕ

-- The loop over the entries of the table, from the one at `entry` on.
unfoldable pub read_ranges : List ℕ → ℕ → ℕ → Option (List SecurityRange)
read_ranges bytes zero entry = some []
read_ranges bytes (suc n) entry =
    let later = read_ranges bytes n (entry + 9) in
    elim (psn_to_lba (u24 bytes (entry + 3))) [
      | none ↦ none
      | some start_lba ↦ elim (psn_to_lba (u24 bytes (entry + 6))) [
        | none ↦ none
        | some end_lba ↦ elim later [
          | none ↦ none
          | some rest ↦ some (record { start_lba = start_lba; end_lba = end_lba } ∷ rest)
        ]
      ]
    ]

-- The sector with the bytes from 0x200 up to 0x2d0 set to 0
pub fixed_sector : List ℕ → List ℕ
fixed_sector bytes = take 512 bytes ++ (replicate 208 0 ++ drop 720 bytes)

-- Whether the bytes name the format.
unfoldable pub is_xgd1 : List ℕ → Bool
is_xgd1 bytes = get_or bytes 13 0 == 0x20 && get_or bytes 14 0 == 0x33 && get_or bytes 15 0 == 0xaf

unfoldable pub tables_agree : List ℕ → Bool
tables_agree bytes =
    same_bytes (take table_bytes (drop table_one bytes)) (take table_bytes (drop table_two bytes))

-- The report of a sector whose ranges were read.
unfoldable pub report_of : List ℕ → List SecurityRange → ErrorCode ⊎ Report
report_of bytes ranges = elim (ranges_validate (some ranges)) [
  | failed code ↦ inl code
  | ok ↦ inr (record {
    raw_crc32 = crc32 bytes;
    fixed_xgd1_crc32 = crc32 (fixed_sector bytes);
    ranges = ranges;
    range_count = range_count;
    normalized_sectors = normalized_sectors;
  })
]

-- `gdox_security_sector_inspect`; `none` says that a pointer is NULL. What a call that fails leaves
-- in the report is not modelled.
unfoldable pub inspect : Option (List ℕ) → ErrorCode ⊎ Report
inspect none = inl invalid_argument
inspect (some bytes) =
    if not (length bytes == security_sector_bytes)
    then inl invalid_source
    else if not (is_xgd1 bytes)
    then inl invalid_source
    else if not (tables_agree bytes)
    then inl invalid_source
    else elim (read_ranges bytes range_count table_one) [
      | none ↦ inl invalid_source
      | some ranges ↦ report_of bytes ranges
    ]

length-read_ranges :
    (bytes : List ℕ) (n entry : ℕ) {rs : List SecurityRange}
    → read_ranges bytes n entry ≡ some rs
    → length rs ≡ n
unfolding read_ranges
length-read_ranges bytes zero entry e = ground (arith, e)
length-read_ranges bytes (suc n) entry {rs} e =
    elim (Option-cases (read_ranges bytes n (entry + 9))) [
      | inl none_read ↦ absurd (ground (arith, e, none_read))
      | inr (rest, read) ↦
          let later = length-read_ranges bytes n (entry + 9) read in ground (arith, e, read, later)
    ]

report_of_lem :
    (bytes : List ℕ) (ranges : List SecurityRange) (report : Report)
    → report_of bytes ranges ≡ inr report
    → (ranges_validate (some ranges) ≡ ok)
      × (report.ranges ≡ ranges)
      × (report.raw_crc32 ≡ crc32 bytes)
      × (report.fixed_xgd1_crc32 ≡ crc32 (fixed_sector bytes))
unfolding report_of
report_of_lem bytes ranges report e =
    (ground (arith, e), ground (arith, e), ground (arith, e), ground (arith, e))

-- The calls that the inspection makes on its way to a report.
inspect-reads :
    (bytes : List ℕ) (report : Report)
    → inspect (some bytes) ≡ inr report
    → (length bytes ≡ security_sector_bytes)
      × (is_xgd1 bytes ≡ true)
      × (tables_agree bytes ≡ true)
      × ((ranges : List SecurityRange) × (read_ranges bytes range_count table_one ≡ some ranges)
          × (report_of bytes ranges ≡ inr report))
unfolding inspect
inspect-reads bytes report = elim (Bool-cases (length bytes == security_sector_bytes)) [
  | inr other_size ↦ rw other_size (λ e. absurd (ground (arith, e)))
  | inl size ↦ elim (Bool-cases (is_xgd1 bytes)) [
    | inr other_format ↦ rw (inspect, size, other_format) (λ e. absurd (ground (arith, e)))
    | inl format ↦ elim (Bool-cases (tables_agree bytes)) [
      | inr differ ↦ rw (inspect, size, format, differ) (λ e. absurd (ground (arith, e)))
      | inl agree ↦ elim (Option-cases (read_ranges bytes range_count table_one)) [
        | inl unread ↦ rw (inspect, size, format, agree, unread) (λ e. absurd (ground (arith, e)))
        | inr (ranges, read) ↦
            rw (inspect, size, format, agree, read)
              (λ e. (ground (arith, size), refl, refl, (ranges, refl, e)))
      ]
    ]
  ]
]

-- A sector that passes has the size and the mark of the format, two equal copies of the table, and a
-- report with its checksums and with the sixteen ranges of the table, which lie in the image, are
-- disjoint and in order, and have 4096 sectors each.
pub inspect-passes :
    (bytes : List ℕ) (report : Report)
    → inspect (some bytes) ≡ inr report
    → (length bytes ≡ security_sector_bytes)
      × (is_xgd1 bytes ≡ true)
      × (take table_bytes (drop table_one bytes) ≡ take table_bytes (drop table_two bytes))
      × (read_ranges bytes range_count table_one ≡ some report.ranges)
      × AreRanges 0 report.ranges
      × (report.raw_crc32 ≡ crc32 bytes)
      × (report.fixed_xgd1_crc32 ≡ crc32 (fixed_sector bytes))
unfolding tables_agree
inspect-passes bytes report e =
    let (size, format, agree, (ranges, read, reported)) = inspect-reads bytes report e in
    let (valid, same, raw, fixed) = report_of_lem bytes ranges report reported in
    let count = length-read_ranges bytes range_count table_one read in
    (
      size,
      format,
      same_bytes-≡ (take table_bytes (drop table_one bytes))
          (take table_bytes (drop table_two bytes)) agree,
      read ∙ ap some (sym same),
      rw same ((ranges_validate-ok_iff ranges count).0 valid),
      raw,
      fixed,
    )
