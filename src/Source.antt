-- ===== src/Source.antt =====
-- include/gdox/source.h and src/core/source.c: the sector source, a handle on a context and
-- a table of operations, with what the code decides about a read and about an observation. A context stands
-- for all that is reachable from it, the device included; a NULL handle takes the branches of a
-- closed one.
pub mod Closing
pub mod Dispatch
pub mod Image
pub mod Lifecycle
pub mod Media
pub mod Partition
pub mod Patch
use gdox.Common.{
  ℕ, ◌-◌, ◌*◌, Bool, false, not, ◌&&◌, ◌||◌, Option, none, some, List, replicate, ltb, ◌==◌,
  if◌then◌else◌, u64, u64_max,
}
use gdox.Fault.{invalid_argument, out_of_bounds, protocol, Outcome, ok, failed}

-- GDOX_LOGICAL_SECTOR_BYTES
abbrev pub sector_bytes : ℕ
sector_bytes = 2048

-- `gdox_physical_read_stats`
pub record PhysicalReadStats : Type 0 where
  pub commands : ℕ
  pub sectors : ℕ
  pub bytes : ℕ
  pub last_lba : ℕ

abbrev pub no_stats : PhysicalReadStats
no_stats = record { commands = 0; sectors = 0; bytes = 0; last_lba = 0 }

-- `gdox_media_readiness`
abbrev pub readiness_unknown : ℕ
readiness_unknown = 0

abbrev pub readiness_absent : ℕ
readiness_absent = 1

abbrev pub readiness_present : ℕ
readiness_present = 2

-- `gdox_media_event`
abbrev pub event_none : ℕ
event_none = 0

abbrev pub event_eject_request : ℕ
event_eject_request = 1

abbrev pub event_new_media : ℕ
event_new_media = 2

abbrev pub event_removal : ℕ
event_removal = 3

abbrev pub event_changed : ℕ
event_changed = 4

-- `gdox_media_observation`. The enumerations are numbers, since the code guards against values
-- outside them.
pub record MediaObservation : Type 0 where
  pub readiness : ℕ
  pub generation : ℕ
  pub event : ℕ

abbrev pub no_observation : MediaObservation
no_observation = record { readiness = readiness_unknown; generation = 0; event = event_none }

-- `gdox_disc_evidence`
pub record DiscEvidence : Type 0 where
  pub pfi_present : Bool
  pub dmi_present : Bool
  pub security_sector_present : Bool
  pub pfi : List ℕ
  pub dmi : List ℕ
  pub security_sector : List ℕ
  pub note : List ℕ

-- `gdox_disc_evidence_clear`
unfoldable pub evidence_clear : DiscEvidence
evidence_clear = record {
  pfi_present = false;
  dmi_present = false;
  security_sector_present = false;
  pfi = replicate 2048 0;
  dmi = replicate 2048 0;
  security_sector = replicate 2048 0;
  note = replicate 256 0;
}

-- `gdox_sector_source_ops`: a member that is `none` is NULL. A read is given the caller's buffer,
-- whose length is `output_bytes`; `close` consumes its context.
pub record SourceOps (C : Type 0) : Type 0 where
  pub sector_count : Option (C → ℕ)
  pub read : Option (C → ℕ → ℕ → List ℕ → Outcome × List ℕ × C)
  pub media_present : Option (C → Bool)
  pub close : Option (C → Outcome)
  pub evidence : Option (C → DiscEvidence → Bool × DiscEvidence)
  pub physical_read_stats : Option (C → PhysicalReadStats → Bool × PhysicalReadStats)
  pub abort : Option (C → C)
  pub prepare_close : Option (C → Outcome × C)
  pub observe_media : Option (C → MediaObservation → MediaObservation)

-- `gdox_sector_source`
pub record Source (C : Type 0) : Type 0 where
  pub context : Option C
  pub ops : Option (SourceOps C)

-- `gdox_removable_session_status`
pub data SessionStatus : Type 0 where
  present unavailable eject_requested changed : SessionStatus

unfoldable pub removable_session_classify : Option MediaObservation → Bool → ℕ → SessionStatus
removable_session_classify none generation_known expected_generation = unavailable
removable_session_classify (some o) generation_known expected_generation =
    if generation_known && not (o.generation == expected_generation)
      || o.event == event_new_media
      || o.event == event_removal
      || o.event == event_changed
    then changed
    else if o.event == event_eject_request
    then eject_requested
    else if o.readiness == readiness_present
    then present
    else unavailable

unfoldable pub validate_read : ℕ → ℕ → ℕ → ℕ → Outcome
validate_read sectors lba blocks output_bytes =
    let expected = u64 (blocks * sector_bytes) in
    if blocks == 0
    then failed invalid_argument
    else if ltb u64_max expected || not (output_bytes == expected)
    then failed protocol
    else if ltb sectors lba || ltb (sectors - lba) blocks
    then failed out_of_bounds
    else ok
