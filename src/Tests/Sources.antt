-- ===== src/Tests/Sources.antt =====
-- The theorems on sources, at the medium in memory.
use gdox.Common.{
  ℕ, zero, suc, ◌+◌, ◌-◌, ◌≡◌, refl, ◌≢◌, inr, true, none, some, List, [], ◌∷◌, ◌==◌, if◌then◌else◌,
  arith,
}
use gdox.Fault.{invalid_argument, io, transport, Outcome, ok, failed}
use gdox.Source.{SourceOps, MediaObservation, event_none, readiness_present}
use gdox.Source.Dispatch.{
  closed_source, handle, Opened, opened, read_through, source_is_valid, read_buffer,
}
use gdox.Source.Image.{Serves}
use gdox.Source.Closing.{close_times, again, done, source_close-retries}
use gdox.Source.Lifecycle.{InBounds, read_buffer_checked}
use gdox.Source.Partition.Serve.{PartitionOf, image_from, partition-Serves}
use gdox.Source.Patch.{
  BytePatch, IndexedPatch, index_patches, sort_patches, unique_patches, lower_bound_patch,
}
use gdox.Source.Patch.Order.{Ascending, patched_byte}
use gdox.Source.Patch.Unique.{prepared_patches}
use gdox.Source.Patch.Search.{SplitsAt, lower_bound_patch-SplitsAt}
use gdox.Source.Patch.Serve.{patched_image, patch_on, PatchOf, patch-Serves}
use gdox.Source.Patch.Make.{make_patched}
use gdox.Source.Patch.Make.Build.{enough, patching, make_patched-atomic, make_patched-Serves}
use gdox.Tests.Ram.{ram_image, ram_sectors, ram, IsRam, IsRam-Serves}

-- Two patches of one byte and one in front of them.
abbrev declared : List BytePatch
declared =
    record { offset = 5000; value = 1 }
    ∷ record { offset = 5000; value = 2 }
    ∷ record { offset = 3; value = 7 }
    ∷ []

abbrev rising : List BytePatch
rising = record { offset = 3; value = 7 } ∷ record { offset = 5000; value = 2 } ∷ []

abbrev indexed : List IndexedPatch
indexed =
    record { patch = record { offset = 5000; value = 1 }; declaration_index = 0 }
    ∷ record { patch = record { offset = 5000; value = 2 }; declaration_index = 1 }
    ∷ record { patch = record { offset = 3; value = 7 }; declaration_index = 2 }
    ∷ []

make_patched-Serves_example :
    (unique : List BytePatch) × (make_patched enough (patching ram declared)
      ≡ (ok, some closed_source, some (inr (patch_on ram unique))))
    × Serves (PatchOf IsRam unique) ram_sectors (patched_image ram_image declared)
make_patched-Serves_example =
    make_patched-Serves IsRam ram_sectors ram_image IsRam-Serves ram refl declared (ground arith)
      (ground arith) (ground arith) (ground arith)

refused :
    (make_patched enough (patching {C = Unit {0}} closed_source declared)).0
    ≡ failed invalid_argument
unfolding make_patched source_is_valid opened
refused = refl

make_patched-atomic_example :
    ((make_patched enough (patching closed_source declared)).1
      ≡ some (closed_source {C = Unit {0}}))
    × ((make_patched enough (patching closed_source declared)).2
        ≡ (patching {C = Unit {0}} closed_source declared).output)
make_patched-atomic_example = make_patched-atomic enough (patching closed_source declared) refused

indexes : index_patches 16_384 0 declared ≡ some indexed
unfolding index_patches
indexes = refl

prepared_patches_example :
    Ascending (unique_patches (sort_patches indexed))
    × ((offset d : ℕ)
        → patched_byte offset d (unique_patches (sort_patches indexed))
          ≡ patched_byte offset d declared)
prepared_patches_example = prepared_patches 16_384 declared indexes

lower_bound_patch-SplitsAt_example : SplitsAt rising 2048 (lower_bound_patch rising 2048)
lower_bound_patch-SplitsAt_example = lower_bound_patch-SplitsAt rising 2048 (ground arith)

patch-Serves_example : Serves (PatchOf IsRam rising) ram_sectors (patched_image ram_image rising)
patch-Serves_example =
    patch-Serves IsRam ram_sectors ram_image rising (ground arith) (ground arith) IsRam-Serves

partition-Serves_example :
    Serves (PartitionOf IsRam ram_sectors 2) (ram_sectors - 2) (image_from ram_image 2)
partition-Serves_example = partition-Serves IsRam ram_sectors ram_image 2 IsRam-Serves

read_buffer_checked_example :
    ((read_buffer ram 7 2 []).0 ≡ ok → (source_is_valid ram ≡ true) × InBounds ram 7 2 [])
    × (¬ InBounds ram 7 2 []
        → ((read_buffer ram 7 2 []).0 ≢ ok)
          × ((read_buffer ram 7 2 []).1 ≡ [])
          × ((read_buffer ram 7 2 []).2 ≡ ram))
    × ((o : Opened (Unit {0}))
        → opened ram ≡ some o
        → InBounds ram 7 2 []
        → read_buffer ram 7 2 [] ≡ read_through ram o 7 2 [])
read_buffer_checked_example = read_buffer_checked ram 7 2 [] (omega arith)

-- A device that is busy for a number of preparations, its context
abbrev busy_prepare : ℕ → Outcome × ℕ
busy_prepare zero = (ok, 0)
busy_prepare (suc n) = (failed io, n)

abbrev busy_close : ℕ → Outcome
busy_close n = if n == 0 then failed transport else ok

abbrev busy_ops : SourceOps ℕ
busy_ops = record {
  sector_count = some (λ n. 1);
  read = some (λ n lba blocks output. (ok, output, n));
  media_present = none;
  close = some busy_close;
  evidence = none;
  physical_read_stats = none;
  abort = none;
  prepare_close = some busy_prepare;
  observe_media = none;
}

-- Two preparations fail, the third closes the device, whose answer counts, and one call comes later.
source_close-retries_example :
    close_times (2 + 2) (handle 2 busy_ops)
    ≡ (failed io ∷ failed io ∷ failed transport ∷ failed invalid_argument ∷ [], closed_source)
source_close-retries_example =
    source_close-retries busy_ops busy_close 2 0 (io ∷ io ∷ []) 1
      (record {
        count = λ n. 1;
        counts = refl;
        read = λ n lba blocks output. (ok, output, n);
        reads = refl;
        closes = refl;
      })
      (again refl refl (again refl refl (done refl refl)))

abbrev seen : MediaObservation
seen = record { readiness = readiness_present; generation = 4; event = event_none }
