-- ===== src/Source/Patch/Serve.antt =====
-- The patched source of src/core/source.c against the image of its inner source.
use gdox.Common.{
  ℕ, ◌+◌, ◌*◌, ◌/◌, ◌≤◌, ◌<◌, ◌≡◌, refl, sym, ◌∙◌, ap, List, length, drop, Image, slice,
  length-slice, get_or-slice, eq_slice, u64, u64_mod, u64_max, arith,
}
use gdox.Fault.{ok, failed, by_outcome, failed-ne-ok}
use gdox.Source.{sector_bytes, Source, validate_read}
use gdox.Source.Dispatch.{
  handle, opened, read_through, source_is_valid, source_sector_count, read_buffer,
}
use gdox.Source.Image.{Reads, Serves, validate_read-in_bounds}
use gdox.Source.Patch.{
  BytePatch, PatchContext, patch_ops, patch_sector_count, patch_read, lower_bound_patch,
  write_patches,
}
use gdox.Source.Patch.Order.{Ascending, patched_byte}
use gdox.Source.Patch.Search.{lower_bound_patch-SplitsAt}
use gdox.Source.Patch.Write.{
  patched_byte-drop, drop-Ascending, length-write_patches, get_or-write_patches,
}

abbrev pub patched_image : Image → List BytePatch → Image
patched_image img ps i = patched_byte i (img i) ps

-- The writes of `patch_read` turn bytes of an image into those of the patched image.
write_patches-slice :
    (img : Image) (ps : List BytePatch) (start end n : ℕ)
    → Ascending ps
    → end ≡ start + n
    → end < u64_mod + 1
    → write_patches (drop (lower_bound_patch ps start) ps) start end (slice img start n)
      ≡ slice (patched_image img ps) start n
write_patches-slice img ps start end n rising e fits =
    let r = lower_bound_patch ps start in
    let (below, from) = lower_bound_patch-SplitsAt ps start rising in
    let size = length-slice img start n in
    eq_slice _ (patched_image img ps) start n
      (length-write_patches (drop r ps) start end (slice img start n) ∙ size)
      (λ i h.
        get_or-write_patches (drop r ps) start end (slice img start n) i
          (drop-Ascending r ps rising) from (omega arith) fits (omega arith)
        ∙ ap (λ t. patched_byte (start + i) t (drop r ps)) (get_or-slice img start n i h)
        ∙ sym (patched_byte-drop r start (start + i) (img (start + i)) ps below (omega arith)))

module _ {C : Type 0} where
  abbrev pub patch_on : Source C → List BytePatch → Source (PatchContext C)
  patch_on inner patches = handle (record { inner = inner; patches = patches }) patch_ops

  patch_read_lem :
      (inner : Source C) (ps : List BytePatch) (lba blocks : ℕ) (output : List ℕ)
      → read_buffer (patch_on inner ps) lba blocks output
        ≡ elim (validate_read (source_sector_count inner) lba blocks (length output)) [
          | failed code ↦ (failed code, output, patch_on inner ps)
          | ok ↦
              let start = u64 (lba * sector_bytes) in
              let (result, buffer, inner') = read_buffer inner lba blocks output in
              elim result [
                | failed code ↦ (failed code, buffer, patch_on inner' ps)
                | ok ↦ (
                  ok,
                  write_patches
                      (drop (lower_bound_patch ps start) ps)
                      start
                      (u64 (start + length output))
                      buffer,
                  patch_on inner' ps,
                )
              ]
        ]
  unfolding read_buffer opened read_through patch_read patch_sector_count
  patch_read_lem inner ps lba blocks output = ground arith

-- The patched handles on those in `Good`.
abbrev pub PatchOf :
    {C : Type 0} → (Source C → Type 0) → List BytePatch → Source (PatchContext C) → Type 0
PatchOf {C} Good ps s = (inner : Source C) × Good inner × (s ≡ patch_on inner ps)

module _ {C : Type 0} (Good : Source C → Type 0) (sectors : ℕ) (img : Image) (ps : List BytePatch)
    (rising : Ascending ps) (small : sectors ≤ u64_max / sector_bytes)
    (serves : Serves Good sectors img) where
  patch-Reads :
      (inner : Source C) (lba blocks : ℕ) (output : List ℕ)
      → Good inner
      → Reads
          (PatchOf Good ps)
          (patched_image img ps)
          lba
          blocks
          output
          (read_buffer (patch_on inner ps) lba blocks output)
  patch-Reads inner lba blocks output good =
      let (keeps, same, gives) = serves.reads inner lba blocks output good in
      let out = read_buffer inner lba blocks output in
      rw (patch_read_lem inner ps lba blocks output, serves.count inner good)
        (by_outcome (Reads (PatchOf Good ps) (patched_image img ps) lba blocks output)
          (validate_read sectors lba blocks (length output)) _ _
          (λ code. ((inner, good, refl), refl, λ e. absurd (failed-ne-ok code e)))
          (λ accepted.
            by_outcome (Reads (PatchOf Good ps) (patched_image img ps) lba blocks output) out.0 _ _
              (λ code. ((_, keeps, refl), same, λ e. absurd (failed-ne-ok code e)))
              (λ read.
                let inside = validate_read-in_bounds sectors lba blocks _ accepted in
                let size = ap length (gives read) ∙ length-slice img _ _ in
                let start : u64 (lba * sector_bytes) ≡ lba * sector_bytes = omega arith in
                (
                  (_, keeps, refl),
                  length-write_patches _ _ _ out.1 ∙ same,
                  λ _.
                      rw (start, gives read)
                        (write_patches-slice img ps (lba * sector_bytes) _ (blocks * sector_bytes)
                          rising (omega arith) (omega arith)),
                ))))

  -- Patched handles on handles that serve an image serve that image with the patches applied.
  pub patch-Serves : Serves (PatchOf Good ps) sectors (patched_image img ps)
  unfolding source_is_valid source_sector_count opened patch_sector_count
  patch-Serves = record {
    fits = serves.fits;
    valid = λ s good. rw good.2;
    count = λ s good. rw good.2 (serves.count good.0 good.1);
    reads = λ s lba blocks output good. rw good.2 (patch-Reads good.0 lba blocks output good.1);
  }
