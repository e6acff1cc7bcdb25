-- ===== src/Security/Ranges.antt =====
-- Which tables of ranges are accepted.
use gdox.Common.{
  ℕ, suc, ◌+◌, ◌-◌, ◌*◌, ◌^◌, is_some, ◌≤◌, ◌<◌, ◌≡◌, ap, ◌∙◌, ◌↔◌, true, Option, none, some, List,
  [], ◌∷◌, length, Bool-cases, inl, inr, u64, arith,
}
use gdox.Fault.{ok}
use gdox.Security.{
  range_count, range_sectors, normalized_sectors, redump_sectors, SecurityRange, range_length,
  range_is_valid, validate_loop, ranges_validate,
}

-- Ranges of 4096 sectors each in the image, one behind the other from a sector on.
abbrev pub AreRanges : ℕ → List SecurityRange → Type 0
AreRanges from [] = Unit
AreRanges from (r ∷ rs) =
    (from ≤ r.start_lba)
    × (r.end_lba ≡ r.start_lba + (range_sectors - 1))
    × (r.end_lba < redump_sectors)
    × AreRanges (r.end_lba + 1) rs

-- Where the range behind another may start.
abbrev start_after : Option SecurityRange → ℕ
start_after none = 0
start_after (some b) = b.end_lba + 1

range_is_valid_iff :
    (before : Option SecurityRange) (r : SecurityRange)
    → (range_is_valid before r ≡ true) ↔ (
        (start_after before ≤ r.start_lba)
        × (r.end_lba ≡ r.start_lba + (range_sectors - 1))
        × (r.end_lba < redump_sectors))
unfolding range_is_valid range_length
range_is_valid_iff none r = (λ h. (omega arith, ground arith, ground arith), λ h. ground arith)
range_is_valid_iff (some b) r = (λ h. (ground arith, ground arith, ground arith), λ h. ground arith)

-- A range that is accepted has the length that the sum counts.
range_length_lem :
    (r : SecurityRange)
    → r.end_lba ≡ r.start_lba + (range_sectors - 1)
    → r.end_lba < redump_sectors
    → range_length r ≡ range_sectors
unfolding range_length
range_length_lem r e inside = ground arith

validate_loop-some :
    (before : Option SecurityRange) (rs : List SecurityRange) (total : ℕ)
    → total + length rs * range_sectors < 2 ^ 64
    → AreRanges (start_after before) rs
    → validate_loop before rs total ≡ some (total + length rs * range_sectors)
unfolding validate_loop
validate_loop-some before [] total fits ranges = ap some (omega arith)
validate_loop-some before (r ∷ rs) total fits (behind, size, inside, later) =
    let valid = (range_is_valid_iff before r).1 (behind, size, inside) in
    let counted = range_length_lem r size inside in
    let sum : u64 (total + range_sectors) ≡ total + range_sectors = omega (arith, fits) in
    let all : total + range_sectors + length rs * range_sectors
        ≡ total + suc (length rs) * range_sectors =
      omega arith in
    rw (validate_loop, valid, counted, sum)
      (validate_loop-some (some r) rs (total + range_sectors) (omega (arith, fits)) later
        ∙ ap some all)

validate_loop-AreRanges :
    (before : Option SecurityRange) (rs : List SecurityRange) (total : ℕ)
    → is_some (validate_loop before rs total) ≡ true
    → AreRanges (start_after before) rs
unfolding validate_loop
validate_loop-AreRanges before [] total = λ h. tt
validate_loop-AreRanges before (r ∷ rs) total = elim (Bool-cases (range_is_valid before r)) [
  | inl valid ↦
      rw (validate_loop, valid)
        (λ h.
          let (behind, size, inside) = (range_is_valid_iff before r).0 valid in
          (
            behind,
            size,
            inside,
            validate_loop-AreRanges (some r) rs (u64 (total + range_length r)) h,
          ))
  | inr refused ↦ rw (validate_loop, refused) (λ h. absurd (ground (arith, h)))
]

-- A table of sixteen ranges is accepted exactly when each has 4096 sectors and lies in the image, and
-- each starts behind the one before: the ranges are disjoint and in order. The sum adds nothing.
pub ranges_validate-ok_iff :
    (rs : List SecurityRange)
    → length rs ≡ range_count
    → (ranges_validate (some rs) ≡ ok) ↔ AreRanges 0 rs
unfolding ranges_validate
ranges_validate-ok_iff rs count = (
  λ h. validate_loop-AreRanges none rs 0 (ground (arith, h)),
  λ ranges.
      let total = validate_loop-some none rs 0 (omega (arith, count)) ranges in
      let sum : 0 + length rs * range_sectors ≡ normalized_sectors = omega (arith, count) in
      ground (arith, total, sum),
)
