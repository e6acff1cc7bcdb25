-- ===== src/Nbd/Telemetry/Sums.antt =====
-- src/platform/nbd_telemetry.c: what each read adds to the counters, and what reads come to.
use gdox.Common.{
  ℕ, ◌+◌, ◌≡◌, refl, ◌∙◌, not, ◌&&◌, ltb, ◌==◌, if◌then◌else◌, length, List, [], ◌∷◌, arith,
}
use gdox.Nbd.Telemetry.Totals.{total, one_when, measured, grown, without_drive, slowest}
use gdox.Nbd.Telemetry.{
  ReadStats, Telemetry, ReadEvent, physical_delta, count_request, count_sequence, count_result,
  count_drive_io, add_physical, count_physical, record_with,
}
use gdox.Nbd.Telemetry.Ledger.{ledger_record, record_all}

-- The parts of an event that do not concern the drive, and that `count_physical` keeps
pub record Keeps (s s' : ReadStats) : Type 0 where
  pub requests : s'.requests ≡ s.requests
  pub requested_bytes : s'.requested_bytes ≡ s.requested_bytes
  pub successful_requests : s'.successful_requests ≡ s.successful_requests
  pub successful_bytes : s'.successful_bytes ≡ s.successful_bytes
  pub failed_requests : s'.failed_requests ≡ s.failed_requests
  pub sequential_requests : s'.sequential_requests ≡ s.sequential_requests
  pub discontinuous_requests : s'.discontinuous_requests ≡ s.discontinuous_requests
  pub service_milliseconds : s'.service_milliseconds ≡ s.service_milliseconds
  pub maximum_service_milliseconds :
      s'.maximum_service_milliseconds ≡ s.maximum_service_milliseconds

pub count_physical-Keeps : (e : ReadEvent) (s : ReadStats) → Keeps s (count_physical ◌+◌ e s)
unfolding count_physical count_drive_io add_physical
count_physical-Keeps e s = record {
  requests = ground arith;
  requested_bytes = ground arith;
  successful_requests = ground arith;
  successful_bytes = ground arith;
  failed_requests = ground arith;
  sequential_requests = ground arith;
  discontinuous_requests = ground arith;
  service_milliseconds = ground arith;
  maximum_service_milliseconds = ground arith;
}

-- The numbers that the drive's statistics add
pub record AddsDrive (e : ReadEvent) (s s' : ReadStats) : Type 0 where
  pub served_without_drive_io_requests :
      s'.served_without_drive_io_requests
      ≡ s.served_without_drive_io_requests + one_when (without_drive e && e.succeeded)
  pub served_without_drive_io_bytes :
      s'.served_without_drive_io_bytes
      ≡ s.served_without_drive_io_bytes + (if without_drive e && e.succeeded then e.length else 0)
  pub requests_with_drive_io :
      s'.requests_with_drive_io
      ≡ s.requests_with_drive_io + one_when (not (grown (λ p. p.commands) e == 0))
  pub physical_commands : s'.physical_commands ≡ s.physical_commands + grown (λ p. p.commands) e
  pub physical_sectors : s'.physical_sectors ≡ s.physical_sectors + grown (λ p. p.sectors) e
  pub physical_bytes : s'.physical_bytes ≡ s.physical_bytes + grown (λ p. p.bytes) e

pub count_physical-AddsDrive :
    (e : ReadEvent) (s : ReadStats) → AddsDrive e s (count_physical ◌+◌ e s)
unfolding count_physical count_drive_io add_physical physical_delta without_drive grown measured
count_physical-AddsDrive e s = record {
  served_without_drive_io_requests = ground arith;
  served_without_drive_io_bytes = ground arith;
  requests_with_drive_io = ground arith;
  physical_commands = ground arith;
  physical_sectors = ground arith;
  physical_bytes = ground arith;
}

-- What a read adds before the drive is looked at
abbrev pub before_drive : Telemetry → ReadEvent → ReadStats
before_drive t e =
    count_result ◌+◌ e
      (count_sequence ◌+◌ t.previous_read_end t.previous_read_valid e (count_request ◌+◌ e t.reads))

pub record AddsRead (e : ReadEvent) (s s' : ReadStats) : Type 0 where
  pub requests : s'.requests ≡ s.requests + 1
  pub requested_bytes : s'.requested_bytes ≡ s.requested_bytes + e.length
  pub successful_requests : s'.successful_requests ≡ s.successful_requests + one_when e.succeeded
  pub successful_bytes :
      s'.successful_bytes ≡ s.successful_bytes + (if e.succeeded then e.length else 0)
  pub failed_requests : s'.failed_requests ≡ s.failed_requests + one_when (not e.succeeded)
  pub service_milliseconds : s'.service_milliseconds ≡ s.service_milliseconds + e.elapsed_ms
  pub served_without_drive_io_requests :
      s'.served_without_drive_io_requests ≡ s.served_without_drive_io_requests
  pub served_without_drive_io_bytes :
      s'.served_without_drive_io_bytes ≡ s.served_without_drive_io_bytes
  pub requests_with_drive_io : s'.requests_with_drive_io ≡ s.requests_with_drive_io
  pub physical_commands : s'.physical_commands ≡ s.physical_commands
  pub physical_sectors : s'.physical_sectors ≡ s.physical_sectors
  pub physical_bytes : s'.physical_bytes ≡ s.physical_bytes

pub before_drive-AddsRead : (t : Telemetry) (e : ReadEvent) → AddsRead e t.reads (before_drive t e)
unfolding count_request count_sequence count_result
before_drive-AddsRead t e = record {
  requests = ground arith;
  requested_bytes = ground arith;
  successful_requests = ground arith;
  successful_bytes = ground arith;
  failed_requests = ground arith;
  service_milliseconds = ground arith;
  served_without_drive_io_requests = ground arith;
  served_without_drive_io_bytes = ground arith;
  requests_with_drive_io = ground arith;
  physical_commands = ground arith;
  physical_sectors = ground arith;
  physical_bytes = ground arith;
}

-- A number that each read adds to adds up.
pub total_lem :
    (field : ReadStats → ℕ) (f : ReadEvent → ℕ)
    → ((t : Telemetry) (e : ReadEvent) → field (ledger_record t e).reads ≡ field t.reads + f e)
    → (es : List ReadEvent) (t : Telemetry)
    → field (record_all ledger_record t es).reads ≡ field t.reads + total f es
unfolding record_all total
total_lem field f adds [] t = omega arith
total_lem field f adds (e ∷ es) t =
    omega (arith, adds t e, total_lem field f adds es (ledger_record t e))

pub total-length : (es : List ReadEvent) → total (λ e. 1) es ≡ length es
unfolding total
total-length [] = refl
total-length (e ∷ es) = omega (arith, total-length es)

slowest_before :
    (t : Telemetry) (e : ReadEvent)
    → (before_drive t e).maximum_service_milliseconds ≡ (
        if ltb t.reads.maximum_service_milliseconds e.elapsed_ms
        then e.elapsed_ms
        else t.reads.maximum_service_milliseconds)
unfolding count_request count_sequence count_result
slowest_before t e = ground arith

slowest_step :
    (t : Telemetry) (e : ReadEvent)
    → (ledger_record t e).reads.maximum_service_milliseconds ≡ (
        if ltb t.reads.maximum_service_milliseconds e.elapsed_ms
        then e.elapsed_ms
        else t.reads.maximum_service_milliseconds)
unfolding record_with
slowest_step t e =
    Keeps.maximum_service_milliseconds (count_physical-Keeps e (before_drive t e))
    ∙ slowest_before t e

-- The longest time so far
pub slowest_lem :
    (es : List ReadEvent) (t : Telemetry)
    → (record_all ledger_record t es).reads.maximum_service_milliseconds ≡ (
        if ltb t.reads.maximum_service_milliseconds (slowest es)
        then slowest es
        else t.reads.maximum_service_milliseconds)
unfolding record_all slowest
slowest_lem [] t = ground arith
slowest_lem (e ∷ es) t = ground (arith, slowest_lem es (ledger_record t e), slowest_step t e)
