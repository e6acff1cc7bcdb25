-- ===== src/Xdvdfs/Volume/Scan.antt =====
-- src/core/xdvdfs.c: probes and scans of a source that serves an image.
use mathlib.Core.Path.{subst}
use gdox.Common.{
  ℕ, zero, suc, ◌+◌, ◌-◌, ◌*◌, ◌≤◌, ◌<◌, ◌≡◌, sym, ◌∙◌, inl, inr, Bool-cases, List, ◌++◌, length,
  length-append, length-take, length-drop, take, drop, min, ltb, Image, slice, arith, u64, u64_mod,
}
use gdox.Fault.{ErrorCode, Outcome-cases, ok, failed, failed-ne-ok}
use gdox.Source.{sector_bytes, Source, validate_read}
use gdox.Source.Dispatch.{read_buffer}
use gdox.Source.Image.{Serves, Reliable, validate_read-ok_iff}
use gdox.Xdvdfs.Volume.{
  scan_batch, Probe, broken, nothing, found, inspect_descriptor_batch, blank_sector,
  probe_descriptor, probe_descriptor_batch, scan_blocks, scan_rounds,
}
use gdox.Xdvdfs.Volume.Sector.{
  sector_at, sectors_at, sectors_at_one, length-blank_sector, Scanned, go_on, stop,
  inspect_sector-Scanned, inspect_batch-Scanned,
}

module _ {C : Type 0} (Good : Source C → Type 0) (sectors : ℕ) (img : Image)
    (serves : Serves Good sectors img) where
  abbrev pub Told : ℕ → ℕ → Probe → Type 0
  Told = Scanned (Reliable Good sectors) img

  -- What a search of a range leaves: a good handle, and what it tells of the range
  abbrev pub Sought : ℕ → ℕ → Probe × Source C → Type 0
  Sought from to (probe, s) = Good s × Told from to probe

  in_sectors :
      (lba blocks : ℕ) (bytes : List ℕ)
      → 0 < blocks
      → blocks ≤ scan_batch
      → lba + blocks ≤ sectors
      → length bytes ≡ blocks * sector_bytes
      → validate_read sectors lba blocks (length bytes) ≡ ok
  in_sectors lba blocks bytes some_blocks few inside size =
      (validate_read-ok_iff sectors lba blocks (length bytes) (omega arith)).1
        (λ e. omega (arith, e), size, inside)

  -- A read that fails where it is in bounds tells nothing, if reads are reliable.
  failed_read :
      (s : Source C) (from to lba blocks : ℕ) (bytes : List ℕ) (code : ErrorCode)
      → Good s
      → validate_read sectors lba blocks (length bytes) ≡ ok
      → (read_buffer s lba blocks bytes).0 ≡ failed code
      → Told from to (broken code)
  failed_read s from to lba blocks bytes code good accepted e =
      λ sure. absurd (failed-ne-ok code (sym e ∙ sure s lba blocks bytes good accepted))

  pub probe-Sought :
      (s : Source C) (lba : ℕ)
      → Good s
      → lba < sectors
      → Sought lba (lba + 1) (probe_descriptor s lba)
  unfolding probe_descriptor sectors_at sector_at
  probe-Sought s lba good inside =
      let got = read_buffer s lba 1 blank_sector in
      let (good', same, gives) = serves.reads s lba 1 blank_sector good in
      let accepted =
        in_sectors lba 1 blank_sector (omega arith) (omega arith) (omega arith)
          length-blank_sector in
      elim (Outcome-cases got.0) [
        | inl e ↦
            let is : got.1 ≡ sector_at img lba = gives e ∙ sectors_at_one img lba in
            rw (probe_descriptor, e, is)
              (good', inspect_sector-Scanned (Reliable Good sectors) img lba)
        | inr (code, e) ↦
            rw (probe_descriptor, e)
              (good', failed_read s lba (lba + 1) lba 1 blank_sector code good accepted e)
      ]

  -- A sector, then the rest
  next_sector :
      (blocks lba : ℕ) (first : Probe × Source C)
      → Sought lba (lba + 1) first
      → ((s : Source C)
          → Good s
          → Sought (lba + 1) (lba + suc blocks) (probe_descriptor_batch blocks s (lba + 1)))
      → Sought lba (lba + suc blocks) (elim first.0 [
        | nothing ↦ probe_descriptor_batch blocks first.1 (lba + 1)
        | broken code ↦ (broken code, first.1)
        | found volume ↦ (found volume, first.1)
      ])
  next_sector blocks lba (nothing, s) (good, clear) later =
      let (good', told) = later s good in
      (
        good',
        go_on (Reliable Good sectors) img lba (lba + 1) (lba + suc blocks) _ (omega arith) clear
            told,
      )
  next_sector blocks lba (broken code, s) (good, told) later = (
    good,
    stop (Reliable Good sectors) img lba (lba + 1) (lba + suc blocks) (broken code) (omega arith) tt
        told,
  )
  next_sector blocks lba (found v, s) (good, told) later = (
    good,
    stop (Reliable Good sectors) img lba (lba + 1) (lba + suc blocks) (found v) (omega arith) tt
        told,
  )

  pub probe_batch-Sought :
      (blocks lba : ℕ) (s : Source C)
      → Good s
      → lba + blocks ≤ sectors
      → Sought lba (lba + blocks) (probe_descriptor_batch blocks s lba)
  unfolding probe_descriptor_batch
  probe_batch-Sought zero lba s good inside = (good, λ k above below. absurd (omega arith))
  probe_batch-Sought (suc blocks) lba s good inside =
      let to : lba + 1 + blocks ≡ lba + suc blocks = omega arith in
      next_sector blocks lba (probe_descriptor s lba) (probe-Sought s lba good (omega arith))
        (λ t good'.
          subst (λ k. Sought (lba + 1) k (probe_descriptor_batch blocks t (lba + 1))) to
            (probe_batch-Sought blocks (lba + 1) t good' (omega arith)))

  -- What a round leaves: a good handle, as large a batch, and what it tells of its blocks
  abbrev Round : ℕ → ℕ → List ℕ → Probe × List ℕ × Source C → Type 0
  Round lba blocks batch (probe, batch', s) =
      Good s × (length batch' ≡ length batch) × Told lba (lba + blocks) probe

  as_batch :
      (lba blocks : ℕ) (read : List ℕ)
      → read ≡ slice img (lba * sector_bytes) (blocks * sector_bytes)
      → Told lba (lba + blocks) (inspect_descriptor_batch blocks read lba)
  unfolding sectors_at
  as_batch lba blocks read e =
      subst (λ l. Told lba (lba + blocks) (inspect_descriptor_batch blocks l lba)) (sym e)
        (inspect_batch-Scanned (Reliable Good sectors) img blocks lba)

  scan_blocks-Round :
      (s : Source C) (lba blocks : ℕ) (batch : List ℕ)
      → Good s
      → 0 < blocks
      → blocks ≤ scan_batch
      → lba + blocks ≤ sectors
      → length batch ≡ scan_batch * sector_bytes
      → Round lba blocks batch (scan_blocks s lba blocks batch)
  unfolding scan_blocks
  scan_blocks-Round s lba blocks batch good some_blocks few inside size =
      let front = take (blocks * sector_bytes) batch in
      let got = read_buffer s lba blocks front in
      let (good', same, gives) = serves.reads s lba blocks front good in
      let front_size : length front ≡ blocks * sector_bytes =
        omega (arith, length-take (blocks * sector_bytes) batch) in
      let accepted = in_sectors lba blocks front some_blocks few inside front_size in
      let kept : length (got.1 ++ drop (blocks * sector_bytes) batch) ≡ length batch = omega (
        arith,
        same,
        front_size,
        length-append got.1 (drop (blocks * sector_bytes) batch),
        length-drop (blocks * sector_bytes) batch,
      ) in
      elim (Outcome-cases got.0) [
        | inl e ↦ rw (scan_blocks, e) (good', kept, as_batch lba blocks got.1 (gives e))
        | inr (code, e) ↦ elim (Bool-cases (ltb 1 blocks)) [
          | inl many ↦
              let (good'', told) = probe_batch-Sought blocks lba got.2 good' inside in
              rw (scan_blocks, e, many) (good'', kept, told)
          | inr one ↦
              rw (scan_blocks, e, one)
                (
                  good',
                  kept,
                  failed_read s lba (lba + blocks) lba blocks front code good accepted e,
                )
        ]
      ]

  -- A round, then the others
  next-Round :
      (fuel lba blocks end : ℕ) (batch : List ℕ) (round : Probe × List ℕ × Source C)
      → lba + blocks ≤ end
      → end < u64_mod
      → Round lba blocks batch round
      → ((s : Source C) (b : List ℕ)
          → Good s
          → length b ≡ length batch
          → Sought (lba + blocks) end (scan_rounds fuel s (lba + blocks) end b))
      → Sought lba end (elim round.0 [
        | nothing ↦ scan_rounds fuel round.2 (u64 (lba + blocks)) end round.1
        | broken code ↦ (broken code, round.2)
        | found volume ↦ (found volume, round.2)
      ])
  next-Round fuel lba blocks end batch (nothing, b, s) within fits (good, same, clear) later =
      let (good', told) = later s b good same in
      let small : u64 (lba + blocks) ≡ lba + blocks = omega arith in
      rw small
        (good', go_on (Reliable Good sectors) img lba (lba + blocks) end _ (omega arith) clear told)
  next-Round fuel lba blocks end batch (broken code, b, s) within fits (good, same, told) later =
      (good, stop (Reliable Good sectors) img lba (lba + blocks) end (broken code) within tt told)
  next-Round fuel lba blocks end batch (found v, b, s) within fits (good, same, told) later =
      (good, stop (Reliable Good sectors) img lba (lba + blocks) end (found v) within tt told)

  pub scan_rounds-Sought :
      (fuel : ℕ) (s : Source C) (lba end : ℕ) (batch : List ℕ)
      → Good s
      → end ≤ fuel + lba
      → end ≤ sectors
      → length batch ≡ scan_batch * sector_bytes
      → Sought lba end (scan_rounds fuel s lba end batch)
  unfolding scan_rounds
  scan_rounds-Sought zero s lba end batch good enough inside size =
      (good, λ k above below. absurd (omega arith))
  scan_rounds-Sought (suc fuel) s lba end batch good enough inside size =
      let blocks = min (end - lba) scan_batch in
      elim (Bool-cases (ltb lba end)) [
        | inr e ↦
            rw (scan_rounds, e) (good, λ k above below. absurd (ground (arith, e, above, below)))
        | inl e ↦
            let before : lba < end = ground (arith, e) in
            rw (scan_rounds, e)
              (next-Round fuel lba blocks end batch (scan_blocks s lba blocks batch) (omega arith)
                (omega (arith, serves.fits))
                (scan_blocks-Round s lba blocks batch good (omega arith) (omega arith) (omega arith)
                  size)
                (λ t b good' same.
                  scan_rounds-Sought fuel t (lba + blocks) end b good' (omega arith) inside
                    (omega (arith, same, size))))
      ]
