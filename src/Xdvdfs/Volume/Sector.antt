-- ===== src/Xdvdfs/Volume/Sector.antt =====
-- src/core/xdvdfs.c: the sectors of an image, as the search for the volume sees them.
use mathlib.Core.Path.{subst}
use gdox.Common.{
  ℕ, zero, suc, ◌+◌, ◌-◌, ◌*◌, ◌≤◌, ◌<◌, ◌≡◌, refl, sym, ap, ap₂, ◌∙◌, ◌⊎◌, inl, inr, Bool, true,
  false, Bool-cases, List, length, length-replicate, ltb, Image, slice, take-slice, drop-slice,
  arith,
}
use gdox.Fault.{ErrorCode}
use gdox.Source.{sector_bytes}
use gdox.Xdvdfs.{XdvdfsVolume}
use gdox.Xdvdfs.Volume.{
  descriptor_magic_valid, parse_descriptor, Probe, broken, nothing, found, or_else, parsed,
  inspect_sector, first_sector, later_sectors, inspect_descriptor_batch, blank_sector,
}

-- The bytes of a sector
unfoldable pub sector_at : Image → ℕ → List ℕ
sector_at img lba = slice img (lba * sector_bytes) sector_bytes

-- The bytes of consecutive sectors
unfoldable pub sectors_at : Image → ℕ → ℕ → List ℕ
sectors_at img lba blocks = slice img (lba * sector_bytes) (blocks * sector_bytes)

pub sectors_at_one : (img : Image) (lba : ℕ) → sectors_at img lba 1 ≡ sector_at img lba
unfolding sectors_at sector_at
sectors_at_one img lba = refl

first-sectors_at :
    (img : Image) (lba blocks : ℕ)
    → first_sector (sectors_at img lba (suc blocks)) ≡ sector_at img lba
unfolding first_sector sectors_at sector_at
first-sectors_at img lba blocks =
    take-slice img (lba * sector_bytes) (suc blocks * sector_bytes) sector_bytes (omega arith)

later-sectors_at :
    (img : Image) (lba blocks : ℕ)
    → later_sectors (sectors_at img lba (suc blocks)) ≡ sectors_at img (lba + 1) blocks
unfolding later_sectors sectors_at
later-sectors_at img lba blocks =
    let e : lba * sector_bytes + sector_bytes ≡ (lba + 1) * sector_bytes = omega arith in
    let f : suc blocks * sector_bytes - sector_bytes ≡ blocks * sector_bytes = omega arith in
    drop-slice img (lba * sector_bytes) (suc blocks * sector_bytes) sector_bytes
    ∙ ap (λ s. slice img s (suc blocks * sector_bytes - sector_bytes)) e
    ∙ ap (slice img ((lba + 1) * sector_bytes)) f

pub length-blank_sector : length blank_sector ≡ 1 * sector_bytes
unfolding blank_sector
length-blank_sector = length-replicate {A = ℕ} sector_bytes 0

-- A sector holds a volume descriptor if it has the magic at both of its ends.
unfoldable pub is_descriptor : Image → ℕ → Bool
is_descriptor img lba = descriptor_magic_valid (sector_at img lba)

-- The volume that the descriptor of a sector describes
unfoldable pub volume_at : Image → ℕ → ErrorCode ⊎ XdvdfsVolume
volume_at img lba = parse_descriptor (sector_at img lba) lba

-- None of the sectors of a range holds a descriptor.
abbrev pub Clear : Image → ℕ → ℕ → Type 0
Clear img from to = (lba : ℕ) → from ≤ lba → lba < to → is_descriptor img lba ≡ false

-- The first sector of a range that holds a descriptor
pub record FirstIn (img : Image) (from to lba : ℕ) : Type 0 where
  pub behind : from ≤ lba
  pub before : lba < to
  pub holds : is_descriptor img lba ≡ true
  pub clear : Clear img from lba

-- What a search of a range may tell; of a failure, only where the reads are `Reliable`.
abbrev pub Scanned : Type 0 → Image → ℕ → ℕ → Probe → Type 0
Scanned Sure img from to nothing = Clear img from to
Scanned Sure img from to (found v) =
    (lba : ℕ) × FirstIn img from to lba × (volume_at img lba ≡ inr v)
Scanned Sure img from to (broken code) =
    Sure → (lba : ℕ) × FirstIn img from to lba × (volume_at img lba ≡ inl code)

module _ (img : Image) where
  Clear-both : (from mid to : ℕ) → Clear img from mid → Clear img mid to → Clear img from to
  Clear-both from mid to front back lba above below = elim (Bool-cases (ltb lba mid)) [
    | inl e ↦ front lba above (ground (arith, e))
    | inr e ↦ back lba (ground (arith, e)) below
  ]

  first_behind :
      (from mid to lba : ℕ)
      → from ≤ mid
      → Clear img from mid
      → FirstIn img mid to lba
      → FirstIn img from to lba
  first_behind from mid to lba h front first = record {
    behind = omega (arith, first.behind);
    before = first.before;
    holds = first.holds;
    clear = Clear-both from mid lba front first.clear;
  }

  first_wider :
      (from to more lba : ℕ) → to ≤ more → FirstIn img from to lba → FirstIn img from more lba
  first_wider from to more lba h first = record {
    behind = first.behind;
    before = omega (arith, first.before);
    holds = first.holds;
    clear = first.clear;
  }

-- A search that ended in front of the end of a range
abbrev pub Ended : Probe → Type 0
Ended nothing = ⊥
Ended (found v) = Unit {0}
Ended (broken code) = Unit {0}

module _ (Sure : Type 0) (img : Image) where
  -- A search that goes on behind a range with no descriptor
  pub go_on :
      (from mid to : ℕ) (probe : Probe)
      → from ≤ mid
      → Clear img from mid
      → Scanned Sure img mid to probe
      → Scanned Sure img from to probe
  go_on from mid to nothing h clear s = Clear-both img from mid to clear s
  go_on from mid to (found v) h clear (lba, first, is) =
      (lba, first_behind img from mid to lba h clear first, is)
  go_on from mid to (broken code) h clear s = λ sure.
      let (lba, first, is) = s sure in (lba, first_behind img from mid to lba h clear first, is)

  pub stop :
      (from to more : ℕ) (probe : Probe)
      → to ≤ more
      → Ended probe
      → Scanned Sure img from to probe
      → Scanned Sure img from more probe
  stop from to more nothing h ended s = absurd ended
  stop from to more (found v) h ended (lba, first, is) =
      (lba, first_wider img from to more lba h first, is)
  stop from to more (broken code) h ended s =
      λ sure. let (lba, first, is) = s sure in (lba, first_wider img from to more lba h first, is)

  -- One sector
  only_first : (lba : ℕ) → is_descriptor img lba ≡ true → FirstIn img lba (lba + 1) lba
  only_first lba e = record {
    behind = omega arith;
    before = omega arith;
    holds = e;
    clear = λ k above below. absurd (omega arith);
  }

  parsed-Scanned :
      (lba : ℕ) (result : ErrorCode ⊎ XdvdfsVolume)
      → is_descriptor img lba ≡ true
      → volume_at img lba ≡ result
      → Scanned Sure img lba (lba + 1) (parsed result)
  unfolding parsed
  parsed-Scanned lba (inl code) e is = λ sure. (lba, only_first lba e, is)
  parsed-Scanned lba (inr v) e is = (lba, only_first lba e, is)

  magic_of : (lba : ℕ) → descriptor_magic_valid (sector_at img lba) ≡ is_descriptor img lba
  unfolding is_descriptor
  magic_of lba = refl

  volume_of_sector : (lba : ℕ) → volume_at img lba ≡ parse_descriptor (sector_at img lba) lba
  unfolding volume_at
  volume_of_sector lba = refl

  pub inspect_sector-Scanned :
      (lba : ℕ) → Scanned Sure img lba (lba + 1) (inspect_sector (sector_at img lba) lba)
  unfolding inspect_sector
  inspect_sector-Scanned lba = rw (magic_of lba) (elim (Bool-cases (is_descriptor img lba)) [
    | inl e ↦
        rw e
          (parsed-Scanned lba (parse_descriptor (sector_at img lba) lba) e (volume_of_sector lba))
    | inr e ↦ rw e (λ k above below.
        let same : lba ≡ k = omega arith in subst (λ j. is_descriptor img j ≡ false) same e)
  ])

  -- A search of one sector, then of the rest
  then_rest :
      (from to : ℕ) (first rest : Probe)
      → from < to
      → Scanned Sure img from (from + 1) first
      → Scanned Sure img (from + 1) to rest
      → Scanned Sure img from to (or_else first rest)
  then_rest from to nothing rest h s t = go_on from (from + 1) to rest (omega arith) s t
  then_rest from to (found v) rest h s t = stop from (from + 1) to (found v) (omega arith) tt s
  then_rest from to (broken code) rest h s t =
      stop from (from + 1) to (broken code) (omega arith) tt s

  batch_step :
      (lba blocks : ℕ)
      → inspect_descriptor_batch (suc blocks) (sectors_at img lba (suc blocks)) lba
        ≡ or_else
            (inspect_sector (sector_at img lba) lba)
            (inspect_descriptor_batch blocks (sectors_at img (lba + 1) blocks) (lba + 1))
  unfolding inspect_descriptor_batch
  batch_step lba blocks =
      ap₂ (λ s r. or_else (inspect_sector s lba) (inspect_descriptor_batch blocks r (lba + 1)))
        (first-sectors_at img lba blocks) (later-sectors_at img lba blocks)

  -- The sectors of a batch, looked at in order
  pub inspect_batch-Scanned :
      (blocks lba : ℕ)
      → Scanned Sure img lba
          (lba + blocks)
          (inspect_descriptor_batch blocks (sectors_at img lba blocks) lba)
  unfolding inspect_descriptor_batch
  inspect_batch-Scanned zero lba = λ k above below. absurd (omega arith)
  inspect_batch-Scanned (suc blocks) lba =
      let to : lba + 1 + blocks ≡ lba + suc blocks = omega arith in
      let later = inspect_descriptor_batch blocks (sectors_at img (lba + 1) blocks) (lba + 1) in
      subst (λ p. Scanned Sure img lba (lba + suc blocks) p) (sym (batch_step lba blocks))
        (then_rest lba (lba + suc blocks) (inspect_sector (sector_at img lba) lba) later
          (omega arith) (inspect_sector-Scanned lba)
          (subst (λ t. Scanned Sure img (lba + 1) t later) to
            (inspect_batch-Scanned blocks (lba + 1))))
