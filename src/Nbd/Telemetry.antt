-- ===== src/Nbd/Telemetry.antt =====
-- src/platform/nbd_telemetry.c: the counters of the NBD server.
pub mod Exact
pub mod Ledger
pub mod Neighbours
pub mod Sums
pub mod Totals
use gdox.Common.{
  ℕ, ◌+◌, ◌-◌, Bool, true, false, not, ◌||◌, Option, none, some, ltb, ◌==◌, if◌then◌else◌, u64,
  u64_max,
}
use gdox.Source.{PhysicalReadStats}

-- `gdox_nbd_read_stats`
pub record ReadStats : Type 0 where
  pub requests : ℕ
  pub requested_bytes : ℕ
  pub successful_requests : ℕ
  pub successful_bytes : ℕ
  pub failed_requests : ℕ
  pub sequential_requests : ℕ
  pub discontinuous_requests : ℕ
  pub served_without_drive_io_requests : ℕ
  pub served_without_drive_io_bytes : ℕ
  pub requests_with_drive_io : ℕ
  pub physical_commands : ℕ
  pub physical_sectors : ℕ
  pub physical_bytes : ℕ
  pub service_milliseconds : ℕ
  pub maximum_service_milliseconds : ℕ

-- `gdox_nbd_telemetry`
pub record Telemetry : Type 0 where
  pub reads : ReadStats
  pub previous_read_end : ℕ
  pub previous_read_valid : Bool

abbrev pub no_reads : ReadStats
no_reads = record {
  requests = 0;
  requested_bytes = 0;
  successful_requests = 0;
  successful_bytes = 0;
  failed_requests = 0;
  sequential_requests = 0;
  discontinuous_requests = 0;
  served_without_drive_io_requests = 0;
  served_without_drive_io_bytes = 0;
  requests_with_drive_io = 0;
  physical_commands = 0;
  physical_sectors = 0;
  physical_bytes = 0;
  service_milliseconds = 0;
  maximum_service_milliseconds = 0;
}

-- What `gdox_nbd_telemetry_record` is told of a read.
pub record ReadEvent : Type 0 where
  pub offset : ℕ
  pub length : ℕ
  pub sequence_valid : Bool
  pub succeeded : Bool
  pub physical_before : Option PhysicalReadStats
  pub physical_after : Option PhysicalReadStats
  pub elapsed_ms : ℕ

unfoldable pub saturating_add_u64 : ℕ → ℕ → ℕ
saturating_add_u64 left right = if ltb (u64_max - left) right then u64_max else left + right

-- `physical_delta`; `none` where the statistics are not known.
unfoldable pub physical_delta :
    Option PhysicalReadStats → Option PhysicalReadStats → Option PhysicalReadStats
physical_delta none after = none
physical_delta (some before) none = none
physical_delta (some before) (some after) =
    if ltb after.commands before.commands
      || ltb after.sectors before.sectors
      || ltb after.bytes before.bytes
    then none
    else some (record {
      commands = after.commands - before.commands;
      sectors = after.sectors - before.sectors;
      bytes = after.bytes - before.bytes;
      last_lba = after.last_lba;
    })

-- The parts of `gdox_nbd_telemetry_record`, over the addition that its counters use.
module _ (add : ℕ → ℕ → ℕ) where
  unfoldable pub count_request : ReadEvent → ReadStats → ReadStats
  count_request e s = record s {
    requests = add s.requests 1;
    requested_bytes = add s.requested_bytes e.length;
    service_milliseconds = add s.service_milliseconds e.elapsed_ms;
    maximum_service_milliseconds =
        if ltb s.maximum_service_milliseconds e.elapsed_ms
        then e.elapsed_ms
        else s.maximum_service_milliseconds;
  }

  unfoldable pub count_sequence : ℕ → Bool → ReadEvent → ReadStats → ReadStats
  count_sequence previous_read_end previous_read_valid e s =
      if not e.sequence_valid || not previous_read_valid
      then s
      else if e.offset == previous_read_end
      then record s { sequential_requests = add s.sequential_requests 1 }
      else record s { discontinuous_requests = add s.discontinuous_requests 1 }

  unfoldable pub count_result : ReadEvent → ReadStats → ReadStats
  count_result e s =
      if e.succeeded
      then record s {
        successful_requests = add s.successful_requests 1;
        successful_bytes = add s.successful_bytes e.length;
      }
      else record s { failed_requests = add s.failed_requests 1 }

  unfoldable pub count_drive_io : ReadEvent → PhysicalReadStats → ReadStats → ReadStats
  count_drive_io e delta s =
      if not (delta.commands == 0)
      then record s { requests_with_drive_io = add s.requests_with_drive_io 1 }
      else if e.succeeded
      then record s {
        served_without_drive_io_requests = add s.served_without_drive_io_requests 1;
        served_without_drive_io_bytes = add s.served_without_drive_io_bytes e.length;
      }
      else s

  unfoldable pub add_physical : PhysicalReadStats → ReadStats → ReadStats
  add_physical delta s = record s {
    physical_commands = add s.physical_commands delta.commands;
    physical_sectors = add s.physical_sectors delta.sectors;
    physical_bytes = add s.physical_bytes delta.bytes;
  }

  unfoldable pub count_physical : ReadEvent → ReadStats → ReadStats
  count_physical e s = elim (physical_delta e.physical_before e.physical_after) [
    | none ↦ s
    | some delta ↦ count_drive_io e delta (add_physical delta s)
  ]

  unfoldable pub record_with : Telemetry → ReadEvent → Telemetry
  record_with t e = record {
    reads = count_physical e (
        count_result e
          (count_sequence t.previous_read_end t.previous_read_valid e (count_request e t.reads)));
    previous_read_end = if e.sequence_valid then u64 (e.offset + e.length) else t.previous_read_end;
    previous_read_valid = if e.sequence_valid then true else t.previous_read_valid;
  }

-- `gdox_nbd_telemetry_record`, where the mutex can be locked.
unfoldable pub telemetry_record : Telemetry → ReadEvent → Telemetry
telemetry_record = record_with saturating_add_u64

-- `gdox_nbd_telemetry_snapshot`, with the statistics that it stores: `none` is a NULL telemetry,
-- and `locked` says whether the mutex could be locked.
unfoldable pub telemetry_snapshot : Option Telemetry → (locked : Bool) → Bool × ReadStats
telemetry_snapshot none locked = (false, no_reads)
telemetry_snapshot (some t) locked = if locked then (true, t.reads) else (false, no_reads)
