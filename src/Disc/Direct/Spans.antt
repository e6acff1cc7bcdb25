-- ===== src/Disc/Direct/Spans.antt =====
-- The two ways in which the direct disc of src/core/disc.c reads.
use gdox.Common.{
  ℕ, ◌+◌, ◌-◌, ◌*◌, ◌/◌, ◌%◌, ◌≤◌, ◌≡◌, refl, ap, ap₂, ◌∙◌, Bool-cases, inl, inr, none, some, List,
  ◌++◌, length, length-append, length-take, length-drop, take, drop, Image, slice, length-slice,
  take-slice, drop-slice, u64, u64_max, ltb, ◌||◌, u32_max, arith,
}
use gdox.Fault.{ErrorCode, out_of_bounds, internal, Outcome, ok, failed, by_outcome, failed-ne-ok}
use gdox.Source.{sector_bytes, Source}
use gdox.Source.Dispatch.{read_buffer}
use gdox.Source.Image.{Serves}
use gdox.Disc.Image.{readable_bytes, ReadsBytes}
use gdox.Disc.Direct.{DirectContext, Malloc, direct_read_sectors, direct_read_span}

-- The bytes of a window into a slice.
window-slice :
    (img : Image) (start n within r : ℕ)
    → within + r ≤ n
    → take r (drop within (slice img start n)) ≡ slice img (start + within) r
window-slice img start n within r h =
    ap (take r) (drop-slice img start n within)
    ∙ take-slice img (start + within) (n - within) r (omega arith)

module _ {C : Type 0} (Good : Source C → Type 0) (sectors : ℕ) (img : Image)
    (serves : Serves Good sectors img) (small : sectors ≤ u64_max / sector_bytes) where
  abbrev pub size : ℕ
  size = sectors * sector_bytes

  abbrev pub GoodContext : DirectContext C → Type 0
  GoodContext c = Good c.source × (c.length ≡ size)

  -- A call that stops before it reads.
  pub stopped :
      (c : DirectContext C) (offset : ℕ) (output : List ℕ) (code : ErrorCode)
      → GoodContext c
      → ReadsBytes GoodContext size img offset output (failed code, output, 0, c)
  stopped c offset output code good = record {
    keeps = good;
    same_length = refl;
    gives = λ e. absurd (failed-ne-ok code e);
    counts = λ e. absurd (failed-ne-ok code e);
    fails = λ e. refl;
  }

  pub direct_read_sectors-ReadsBytes :
      (c : DirectContext C) (offset r : ℕ) (output : List ℕ)
      → GoodContext c
      → offset % sector_bytes ≡ 0
      → r % sector_bytes ≡ 0
      → r ≡ readable_bytes size offset output
      → ReadsBytes GoodContext size img offset output
          (direct_read_sectors c (offset / sector_bytes) r output)
  unfolding direct_read_sectors
  direct_read_sectors-ReadsBytes c offset r output good aligned whole e =
      let first = offset / sector_bytes in
      let (keeps, same, gives) =
        serves.reads c.source first (r / sector_bytes) (take r output) good.0 in
      let out = read_buffer c.source first (r / sector_bytes) (take r output) in
      let kept : length (out.1 ++ drop r output) ≡ length output =
        omega (
          arith,
          length-append out.1 (drop r output),
          length-take r output,
          length-drop r output,
        ) in
      by_outcome (ReadsBytes GoodContext size img offset output) out.0 _ _
        (λ code. record {
          keeps = (keeps, good.1);
          same_length = kept;
          gives = λ read. absurd (failed-ne-ok code read);
          counts = λ read. absurd (failed-ne-ok code read);
          fails = λ read. refl;
        })
        (λ read. record {
          keeps = (keeps, good.1);
          same_length = kept;
          gives = λ _.
              ap (λ t. t ++ drop r output)
                (gives read ∙ ap₂ (slice img) (omega arith) (omega arith))
              ∙ ap (λ k. slice img offset k ++ drop k output) e;
          counts = λ _. e;
          fails = λ read. absurd (read refl);
        })

  -- What `direct_read_span` returns once it has its block.
  abbrev span_result :
      DirectContext C → ℕ → ℕ → ℕ → ℕ → List ℕ → List ℕ → Outcome × List ℕ × ℕ × DirectContext C
  span_result c first within block_count r output block =
      let (result, aligned, source) = read_buffer c.source first block_count block in
      elim result [
        | failed code ↦ (failed code, output, 0, record c { source = source })
        | ok ↦ (ok, take r (drop within aligned) ++ drop r output, r, record c { source = source })
      ]

  span_result-ReadsBytes :
      (c : DirectContext C) (offset block_count r : ℕ) (output block : List ℕ)
      → GoodContext c
      → offset % sector_bytes + r ≤ block_count * sector_bytes
      → r ≡ readable_bytes size offset output
      → ReadsBytes GoodContext size img offset output
          (span_result c (offset / sector_bytes) (offset % sector_bytes) block_count r output block)
  span_result-ReadsBytes c offset block_count r output block good enough e =
      let first = offset / sector_bytes in
      let within = offset % sector_bytes in
      let (keeps, same, gives) = serves.reads c.source first block_count block good.0 in
      let out = read_buffer c.source first block_count block in
      let start : first * sector_bytes + within ≡ offset = omega arith in
      by_outcome (ReadsBytes GoodContext size img offset output) out.0 _ _
        (λ code. record {
          keeps = (keeps, good.1);
          same_length = refl;
          gives = λ read. absurd (failed-ne-ok code read);
          counts = λ read. absurd (failed-ne-ok code read);
          fails = λ read. refl;
        })
        (λ read.
          let bytes : take r (drop within out.1) ≡ slice img offset r =
            ap (λ t. take r (drop within t)) (gives read)
            ∙ window-slice img (first * sector_bytes) (block_count * sector_bytes) within r enough
            ∙ ap (λ t. slice img t r) start in
          record {
            keeps = (keeps, good.1);
            same_length = omega (
              arith,
              length-append (take r (drop within out.1)) (drop r output),
              ap length bytes,
              length-slice img offset r,
              length-drop r output,
            );
            gives = λ _.
                ap (λ t. t ++ drop r output) bytes
                ∙ ap (λ k. slice img offset k ++ drop k output) e;
            counts = λ _. e;
            fails = λ read. absurd (read refl);
          })

  pub direct_read_span-ReadsBytes :
      (malloc : Malloc) (c : DirectContext C) (offset r : ℕ) (output : List ℕ)
      → GoodContext c
      → r ≤ u64_max - offset % sector_bytes
      → r ≡ readable_bytes size offset output
      → ReadsBytes GoodContext size img offset output
          (direct_read_span malloc c (offset / sector_bytes) (offset % sector_bytes) r output)
  unfolding direct_read_span
  direct_read_span-ReadsBytes malloc c offset r output good fits e =
      let first = offset / sector_bytes in
      let within = offset % sector_bytes in
      let block_count = u64 (within + r + sector_bytes - 1) / sector_bytes in
      let enough : within + r ≤ block_count * sector_bytes = omega arith in
      elim (Bool-cases (ltb u32_max block_count || ltb (u64_max / sector_bytes) block_count)) [
        | inl large ↦ rw large (stopped c offset output out_of_bounds good)
        | inr fine ↦
            rw fine
              (elim (malloc (u64 (block_count * sector_bytes)))
                as (λ m. ReadsBytes GoodContext size img offset output (elim m [
                  | none ↦ (failed internal, output, 0, c)
                  | some block ↦ span_result c first within block_count r output block
                ])) [
                  | none ↦ stopped c offset output internal good
                  | some block ↦
                      span_result-ReadsBytes c offset block_count r output block good enough e
                ])
      ]
