-- ===== src/Tests/Ram.antt =====
-- A medium of eight sectors in memory, as a source and as a disc.
use gdox.Common.{
  ℕ, ◌*◌, ◌%◌, ◌≡◌, refl, ◌∙◌, none, some, List, length, replicate, Image, slice, length-slice,
  length-replicate, arith,
}
use gdox.Fault.{Outcome, ok, failed, by_outcome, failed-ne-ok}
use gdox.Source.{sector_bytes, SourceOps, Source, validate_read}
use gdox.Source.Dispatch.{
  handle, opened, read_through, source_is_valid, source_sector_count, read_buffer,
}
use gdox.Source.Image.{Reads, Serves}
use gdox.Disc.{Disc}
use gdox.Disc.Image.{ServesBytes}
use gdox.Disc.Direct.{DirectContext, Malloc}
use gdox.Disc.Direct.Serve.{direct_on, DirectOf, direct-ServesBytes}
use gdox.Disc.Direct.Delivery.{Delivers, Gives}

abbrev pub ram_image : Image
ram_image i = i % 251

abbrev pub ram_sectors : ℕ
ram_sectors = 8

abbrev pub ram_read : Unit {0} → ℕ → ℕ → List ℕ → Outcome × List ℕ × Unit {0}
ram_read context lba blocks output =
    (ok, slice ram_image (lba * sector_bytes) (blocks * sector_bytes), context)

abbrev pub ram_ops : SourceOps (Unit {0})
ram_ops = record {
  sector_count = some (λ context. ram_sectors);
  read = some ram_read;
  media_present = none;
  close = some (λ context. ok);
  evidence = none;
  physical_read_stats = none;
  abort = none;
  prepare_close = none;
  observe_media = none;
}

abbrev pub ram : Source (Unit {0})
ram = handle tt ram_ops

abbrev pub IsRam : Source (Unit {0}) → Type 0
IsRam s = s ≡ ram

ram_fits :
    (lba blocks output_bytes : ℕ)
    → validate_read ram_sectors lba blocks output_bytes ≡ ok
    → blocks * sector_bytes ≡ output_bytes
unfolding validate_read
ram_fits lba blocks output_bytes h = ground arith

ram_read_lem :
    (lba blocks : ℕ) (output : List ℕ)
    → read_buffer ram lba blocks output
      ≡ elim (validate_read ram_sectors lba blocks (length output)) [
        | failed code ↦ (failed code, output, ram)
        | ok ↦ (ok, slice ram_image (lba * sector_bytes) (blocks * sector_bytes), ram)
      ]
unfolding read_buffer opened read_through
ram_read_lem lba blocks output = ground arith

ram-Reads :
    (lba blocks : ℕ) (output : List ℕ)
    → Reads IsRam ram_image lba blocks output (read_buffer ram lba blocks output)
ram-Reads lba blocks output = rw (ram_read_lem lba blocks output) (
    by_outcome (Reads IsRam ram_image lba blocks output)
      (validate_read ram_sectors lba blocks (length output)) _ _
      (λ code. (refl, refl, λ e. absurd (failed-ne-ok code e)))
      (λ accepted. (
        refl,
        length-slice ram_image (lba * sector_bytes) (blocks * sector_bytes)
            ∙ ram_fits lba blocks (length output) accepted,
        λ e. refl,
      )))

pub IsRam-Serves : Serves IsRam ram_sectors ram_image
unfolding source_is_valid source_sector_count opened
IsRam-Serves = record {
  fits = omega arith;
  valid = λ s good. rw good refl;
  count = λ s good. rw good refl;
  reads = λ s lba blocks output good. rw good (ram-Reads lba blocks output);
}

pub ram-Delivers : Delivers ram ram_sectors
ram-Delivers lba blocks output accepted = rw (ram_read_lem lba blocks output, accepted) refl

-- Memory without end.
abbrev pub zeroed : Malloc
zeroed n = some (replicate n 0)

pub zeroed-Gives : Gives zeroed
zeroed-Gives n = (replicate n 0, refl, length-replicate n 0)

abbrev pub ram_bytes : ℕ
ram_bytes = ram_sectors * sector_bytes

abbrev pub ram_disc : Disc (DirectContext (Unit {0}))
ram_disc = direct_on zeroed ram ram_bytes

abbrev pub IsRamDisc : Disc (DirectContext (Unit {0})) → Type 0
IsRamDisc = DirectOf zeroed IsRam ram_bytes

pub IsRamDisc-ServesBytes : ServesBytes IsRamDisc ram_bytes ram_image
IsRamDisc-ServesBytes =
    direct-ServesBytes IsRam ram_sectors ram_image IsRam-Serves (ground arith) zeroed
