-- ===== src/Source/Partition/Serve.antt =====
-- The partition source of src/core/source.c against the image of its inner source.
use gdox.Common.{
  ℕ, ◌+◌, ◌-◌, ◌*◌, ◌≤◌, ◌<◌, ◌≡◌, refl, ◌∙◌, ap, Bool, false, some, List, length, Image, slice,
  slice_ext, if◌then◌else◌, arith, u64, u64_mod,
}
use gdox.Fault.{internal, ok, failed, by_outcome, failed-ne-ok}
use gdox.Source.{sector_bytes, Source, validate_read}
use gdox.Source.Dispatch.{
  closed_source, handle, opened, read_through, source_is_valid, source_sector_count, read_buffer,
}
use gdox.Source.Image.{Reads, Serves, validate_read-in_bounds}
use gdox.Source.Partition.{
  PartitionContext, partition_ops, partition_sector_count, partition_read, make_partition,
}

module _ {C : Type 0} where
  -- The handle of a partition with these fields.
  abbrev pub partition_on : Source C → ℕ → ℕ → Source (PartitionContext C)
  partition_on inner base_lba sectors =
      handle (record { inner = inner; base_lba = base_lba; sectors = sectors }) partition_ops

  -- A read that the partition's bounds admit is the read of the inner source at the base plus the
  -- block; any other read is refused and touches nothing.
  pub partition_read_lem :
      (inner : Source C) (base_lba sectors lba blocks : ℕ) (output : List ℕ)
      → read_buffer (partition_on inner base_lba sectors) lba blocks output
        ≡ elim (validate_read sectors lba blocks (length output)) [
          | failed code ↦ (failed code, output, partition_on inner base_lba sectors)
          | ok ↦
              let (result, buffer, inner') =
                read_buffer inner (u64 (base_lba + lba)) blocks output in
              (result, buffer, partition_on inner' base_lba sectors)
        ]
  unfolding read_buffer opened read_through partition_read partition_sector_count
  partition_read_lem inner base_lba sectors lba blocks output = ground arith

-- The partitions, from a base on, of the handles in `Good`, which have `sectors` sectors.
abbrev pub PartitionOf :
    {C : Type 0} → (Source C → Type 0) → ℕ → ℕ → Source (PartitionContext C) → Type 0
PartitionOf {C} Good sectors base_lba s =
    (inner : Source C) × Good inner × (s ≡ partition_on inner base_lba (sectors - base_lba))

-- The image from a base sector on.
abbrev pub image_from : Image → ℕ → Image
image_from img base_lba i = img (base_lba * sector_bytes + i)

module _ {C : Type 0} (Good : Source C → Type 0) (sectors : ℕ) (img : Image) (base_lba : ℕ) where
  slice-shifted :
      (lba blocks n : ℕ)
      → sectors < u64_mod
      → (0 < blocks) × (lba + blocks ≤ sectors - base_lba)
      → slice img (u64 (base_lba + lba) * sector_bytes) n
        ≡ slice (image_from img base_lba) (lba * sector_bytes) n
  slice-shifted lba blocks n fits inside =
      slice_ext img (image_from img base_lba) _ _ n (λ i h. ap img (omega arith))

  partition-Reads :
      Serves Good sectors img
      → (inner : Source C) (lba blocks : ℕ) (output : List ℕ) → Good inner
      → Reads
          (PartitionOf Good sectors base_lba)
          (image_from img base_lba)
          lba
          blocks
          output
          (read_buffer (partition_on inner base_lba (sectors - base_lba)) lba blocks output)
  partition-Reads serves inner lba blocks output good =
      rw (partition_read_lem inner base_lba (sectors - base_lba) lba blocks output) (
        by_outcome
          (Reads (PartitionOf Good sectors base_lba) (image_from img base_lba) lba blocks output)
          (validate_read (sectors - base_lba) lba blocks (length output)) _ _
          (λ code. ((inner, good, refl), refl, λ e. absurd (failed-ne-ok code e)))
          (λ accepted.
            let inside = validate_read-in_bounds (sectors - base_lba) lba blocks _ accepted in
            let (keeps, same, gives) =
              serves.reads inner (u64 (base_lba + lba)) blocks output good in
            (
              (_, keeps, refl),
              same,
              λ e. gives e ∙ slice-shifted lba blocks (blocks * sector_bytes) serves.fits inside,
            )))

  -- The partitions of handles that serve an image serve what lies from the base on.
  pub partition-Serves :
      Serves Good sectors img
      → Serves (PartitionOf Good sectors base_lba) (sectors - base_lba) (image_from img base_lba)
  unfolding source_is_valid source_sector_count opened partition_sector_count
  partition-Serves serves = record {
    fits = omega (arith, serves.fits);
    valid = λ s good. rw good.2;
    count = λ s good. rw good.2;
    reads = λ s lba blocks output good.
        rw good.2 (partition-Reads serves good.0 lba blocks output good.1);
  }

  -- `gdox_source_make_partition` on a handle that serves an image, with a base inside it and an
  -- empty output: if the memory is there it succeeds, moves the handle into the partition and
  -- leaves the caller an empty one; the output then serves the image from the base on. If not, the
  -- handle stays as it was.
  pub make_partition-moves :
      (inner : Source C) (allocated : Bool)
      → Serves Good sectors img
      → Good inner
      → base_lba < sectors
      → make_partition false allocated (some inner) base_lba (some closed_source) ≡ (
          if allocated
          then (ok, some closed_source, some (partition_on inner base_lba (sectors - base_lba)))
          else (failed internal, some inner, some closed_source))
  unfolding make_partition source_is_valid opened
  make_partition-moves inner allocated serves good h =
      ground (arith, serves.valid inner good, serves.count inner good)
