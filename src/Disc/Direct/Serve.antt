-- ===== src/Disc/Direct/Serve.antt =====
-- The direct disc of src/core/disc.c against the image of its source.
use gdox.Common.{
  ℕ, ◌-◌, ◌*◌, ◌/◌, ◌%◌, ◌≤◌, ◌≡◌, refl, ap, Bool-cases, inl, inr, Bool, some, List, length, Image,
  u64, u64_max, ltb, leb, ◌==◌, ◌||◌, ◌&&◌, u32_max, if◌then◌else◌, arith,
}
use gdox.Fault.{out_of_bounds, internal, ok, failed}
use gdox.Source.{sector_bytes, Source}
use gdox.Source.Dispatch.{closed_source, source_sector_count}
use gdox.Source.Image.{Serves}
use gdox.Disc.{Disc}
use gdox.Disc.Dispatch.{
  disc_handle, closed_disc, opened_disc, disc_is_valid, disc_length, disc_read_buffer,
}
use gdox.Disc.Image.{readable_bytes, ReadsBytes, ServesBytes}
use gdox.Disc.Direct.{
  DirectContext, Malloc, direct_ops, direct_length, direct_read_at, source_length, disc_from_source,
}
use gdox.Disc.Direct.Spans.{
  GoodContext, stopped, direct_read_sectors-ReadsBytes, direct_read_span-ReadsBytes,
}

abbrev pub direct_on : {C : Type 0} → Malloc → Source C → ℕ → Disc (DirectContext C)
direct_on malloc source length =
    disc_handle (record { source = source; length = length }) (direct_ops malloc)

-- The direct discs of a byte length on the handles in `Good`.
abbrev pub DirectOf :
    {C : Type 0} → Malloc → (Source C → Type 0) → ℕ → Disc (DirectContext C) → Type 0
DirectOf {C} malloc Good length d =
    (source : Source C) × Good source × (d ≡ direct_on malloc source length)

module _ {C : Type 0} (Good : Source C → Type 0) (sectors : ℕ) (img : Image)
    (serves : Serves Good sectors img) (small : sectors ≤ u64_max / sector_bytes)
    (malloc : Malloc) where
  -- Nothing to read.
  past_end :
      (c : DirectContext C) (offset : ℕ) (output : List ℕ)
      → GoodContext Good sectors img serves small c
      → readable_bytes (sectors * sector_bytes) offset output ≡ 0
      → ReadsBytes
          (GoodContext Good sectors img serves small)
          (sectors * sector_bytes)
          img
          offset
          output
          (ok, output, 0, c)
  past_end c offset output good e = record {
    keeps = good;
    same_length = refl;
    gives = λ _. rw e refl;
    counts = λ _. rw e refl;
    fails = λ h. absurd (h refl);
  }

  direct_read_at-ReadsBytes :
      (c : DirectContext C) (offset : ℕ) (output : List ℕ)
      → GoodContext Good sectors img serves small c
      → ReadsBytes
          (GoodContext Good sectors img serves small)
          (sectors * sector_bytes)
          img
          offset
          output
          (direct_read_at malloc c offset output)
  unfolding direct_read_at
  direct_read_at-ReadsBytes c offset output good =
      let remaining = c.length - offset in
      let r = if ltb remaining (length output) then remaining else length output in
      let e : r ≡ readable_bytes (sectors * sector_bytes) offset output = ground arith in
      let within = offset % sector_bytes in
      elim (Bool-cases (length output == 0 || leb c.length offset)) [
        | inl nothing ↦ rw nothing (past_end c offset output good (ground arith))
        | inr something ↦ rw something (elim (Bool-cases (ltb (u64_max - within) r)) [
          | inl wraps ↦
              rw wraps (stopped Good sectors img serves small c offset output out_of_bounds good)
          | inr fits ↦
              rw fits
                (elim (Bool-cases
                  (within == 0 && r % sector_bytes == 0 && leb (r / sector_bytes) u32_max)) [
                    | inl whole ↦ rw whole (
                        direct_read_sectors-ReadsBytes Good sectors img serves small c offset r
                          output good (ground arith) (ground arith) e)
                    | inr part ↦ rw part (
                        direct_read_span-ReadsBytes Good sectors img serves small malloc c offset r
                          output good (ground arith) e)
                  ])
        ])
      ]

  disc_reads :
      (source : Source C) (offset : ℕ) (output : List ℕ)
      → Good source
      → ReadsBytes
          (DirectOf malloc Good (sectors * sector_bytes))
          (sectors * sector_bytes)
          img
          offset
          output
          (disc_read_buffer (direct_on malloc source (sectors * sector_bytes)) offset output)
  unfolding disc_read_buffer opened_disc
  disc_reads source offset output good =
      let c : DirectContext C = record { source = source; length = sectors * sector_bytes } in
      let reads = direct_read_at-ReadsBytes c offset output (good, refl) in
      record {
        keeps = (_, reads.keeps.0, ap (direct_on malloc _) reads.keeps.1);
        same_length = reads.same_length;
        gives = reads.gives;
        counts = reads.counts;
        fails = reads.fails;
      }

  -- Direct discs on handles that serve an image serve the bytes of the image: a read that succeeds
  -- gives all bytes from its offset on that lie on the disc and fit the buffer.
  pub direct-ServesBytes :
      ServesBytes (DirectOf malloc Good (sectors * sector_bytes)) (sectors * sector_bytes) img
  unfolding disc_is_valid disc_length opened_disc direct_length
  direct-ServesBytes = record {
    fits = omega arith;
    valid = λ d good. rw good.2;
    count = λ d good. rw good.2;
    reads = λ d offset output good. rw good.2 (disc_reads good.0 offset output good.1);
  }

  -- With the memory at hand `gdox_disc_from_source` moves an open source whose byte length does
  -- not wrap into an empty disc handle, and leaves the caller an empty source; without, both
  -- handles stay as they were.
  pub disc_from_source-moves :
      (source : Source C) (allocated : Bool)
      → Good source
      → disc_from_source malloc allocated source (some closed_disc) ≡ (
          if allocated
          then (ok, closed_source, some (direct_on malloc source (sectors * sector_bytes)))
          else (failed internal, source, some closed_disc))
  unfolding disc_from_source source_length disc_is_valid opened_disc
  disc_from_source-moves source allocated good =
      let bytes : u64 (source_sector_count source * sector_bytes) ≡ sectors * sector_bytes =
        rw (serves.count source good) (omega arith) in
      ground (arith, serves.valid source good, serves.count source good, bytes)
