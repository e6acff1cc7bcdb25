-- ===== src/Security/Physical.antt =====
-- The logical number of each sector of a disc with two layers.
use gdox.Common.{ℕ, ◌+◌, ◌-◌, ◌*◌, ◌<◌, ◌≡◌, some, ltb, if◌then◌else◌, arith}
use gdox.Security.{data_start_psn, layer_zero_sectors, psn_to_lba}

-- The physical number of a logical sector on a disc with opposite track paths: the first layer rises
-- from the start of the data, and a sector of the second layer has the complement, in 24 bits, of
-- the number of the sector of the first layer that lies under it.
abbrev pub physical : ℕ → ℕ
physical lba =
    if ltb lba layer_zero_sectors
    then data_start_psn + lba
    else 0xff_ffff - (data_start_psn + (2 * layer_zero_sectors - 1 - lba))

-- For each sector of both layers, its physical number is turned back into its logical one.
pub psn_to_lba-physical :
    (lba : ℕ) → lba < 2 * layer_zero_sectors → psn_to_lba (physical lba) ≡ some lba
unfolding psn_to_lba
psn_to_lba-physical lba h = ground arith
