-- ===== src/Disc.antt =====
-- include/gdox/disc.h and the first half of src/core/disc.c: a disc that is read at byte offsets,
-- a handle on a context and a table of operations as a sector source is.
pub mod Dispatch
pub mod Image
pub mod Lifecycle
pub mod Media
pub mod Direct
use gdox.Common.{ℕ, Bool, Option, List}
use gdox.Fault.{Outcome}
use gdox.Source.{PhysicalReadStats, MediaObservation}

-- `gdox_random_disc_ops`: a member that is `none` is NULL. A read is given the caller's buffer,
-- and its number is what it leaves in `*read_bytes`, which was 0 before.
pub record DiscOps (C : Type 0) : Type 0 where
  pub length : Option (C → ℕ)
  pub read_at : Option (C → ℕ → List ℕ → Outcome × List ℕ × ℕ × C)
  pub media_present : Option (C → Bool)
  pub close : Option (C → Outcome)
  pub physical_read_stats : Option (C → PhysicalReadStats → Bool × PhysicalReadStats)
  pub abort : Option (C → C)
  pub prepare_close : Option (C → Outcome × C)
  pub observe_media : Option (C → MediaObservation → MediaObservation)

-- `gdox_random_disc`
pub record Disc (C : Type 0) : Type 0 where
  pub context : Option C
  pub ops : Option (DiscOps C)

-- An `output` with its `output_bytes`: a NULL pointer, or a buffer of that length.
pub data Buffer : Type 0 where
  null : ℕ → Buffer
  bytes : List ℕ → Buffer
