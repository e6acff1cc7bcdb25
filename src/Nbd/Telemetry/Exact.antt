-- ===== src/Nbd/Telemetry/Exact.antt =====
-- src/platform/nbd_telemetry.c: the counters after any reads.
use gdox.Common.{ℕ, ◌+◌, ◌≡◌, refl, ◌∙◌, not, ltb, if◌then◌else◌, List, min, u64_max, arith}
use gdox.Nbd.Telemetry.Totals.{total, one_when, slowest, Counts}
use gdox.Nbd.Telemetry.{ReadStats, Telemetry, no_reads, ReadEvent, record_with, telemetry_record}
use gdox.Nbd.Telemetry.Ledger.{Follows, all_follow, ledger_record, record_all, fresh_telemetry}
use gdox.Nbd.Telemetry.Sums.{
  AddsDrive, count_physical-Keeps, count_physical-AddsDrive, before_drive-AddsRead, before_drive,
  total_lem, total-length, slowest_lem,
}
use gdox.Nbd.Telemetry.Neighbours.{first-Neighbours}

-- What one read adds to the ledger
record Adds (e : ReadEvent) (s s' : ReadStats) : Type 0 where
  requests : s'.requests ≡ s.requests + 1
  requested_bytes : s'.requested_bytes ≡ s.requested_bytes + e.length
  successful_requests : s'.successful_requests ≡ s.successful_requests + one_when e.succeeded
  successful_bytes :
      s'.successful_bytes ≡ s.successful_bytes + (if e.succeeded then e.length else 0)
  failed_requests : s'.failed_requests ≡ s.failed_requests + one_when (not e.succeeded)
  service_milliseconds : s'.service_milliseconds ≡ s.service_milliseconds + e.elapsed_ms
  drive : AddsDrive e s s'

ledger_record-Adds : (t : Telemetry) (e : ReadEvent) → Adds e t.reads (ledger_record t e).reads
unfolding record_with
ledger_record-Adds t e =
    let read = before_drive-AddsRead t e in
    let keeps = count_physical-Keeps e (before_drive t e) in
    let drive = count_physical-AddsDrive e (before_drive t e) in
    record {
      requests = keeps.requests ∙ read.requests;
      requested_bytes = keeps.requested_bytes ∙ read.requested_bytes;
      successful_requests = keeps.successful_requests ∙ read.successful_requests;
      successful_bytes = keeps.successful_bytes ∙ read.successful_bytes;
      failed_requests = keeps.failed_requests ∙ read.failed_requests;
      service_milliseconds = keeps.service_milliseconds ∙ read.service_milliseconds;
      drive = record {
        served_without_drive_io_requests =
            omega (
              arith, drive.served_without_drive_io_requests, read.served_without_drive_io_requests,
            );
        served_without_drive_io_bytes =
            omega (arith, drive.served_without_drive_io_bytes, read.served_without_drive_io_bytes);
        requests_with_drive_io =
            omega (arith, drive.requests_with_drive_io, read.requests_with_drive_io);
        physical_commands = omega (arith, drive.physical_commands, read.physical_commands);
        physical_sectors = omega (arith, drive.physical_sectors, read.physical_sectors);
        physical_bytes = omega (arith, drive.physical_bytes, read.physical_bytes);
      };
    }

-- A capped counter of a number that each read adds to
capped_total :
    (field : ReadStats → ℕ) (f : ReadEvent → ℕ) (es : List ReadEvent) (word : ℕ)
    → field no_reads ≡ 0
    → ((t : Telemetry) (e : ReadEvent) → field (ledger_record t e).reads ≡ field t.reads + f e)
    → word ≡ min (field (record_all ledger_record fresh_telemetry es).reads) u64_max
    → word ≡ min (total f es) u64_max
capped_total field f es word none adds capped =
    omega (arith, total_lem field f adds es fresh_telemetry)

above_zero : (n : ℕ) → (if ltb 0 n then n else 0) ≡ n
above_zero n = ground arith

-- After any reads, each counter of the telemetry is the number that it stands for, cut off at
-- 2^64 - 1: how many reads and bytes were asked for, succeeded and failed, how many reads of the
-- sequence start where the one before ended and how many do not, what the drive's statistics grew by,
-- how many reads and bytes were served without a command to the drive, and the time; and the longest
-- time is that of the slowest read.
pub telemetry_record-Counts :
    (es : List ReadEvent) → Counts es (record_all telemetry_record fresh_telemetry es).reads
telemetry_record-Counts es =
    let near = Follows.near (
      all_follow es {t = fresh_telemetry} {exact = fresh_telemetry}
        (record { near = ground arith; same_end = refl; same_valid = refl })) in
    let adds = ledger_record-Adds in
    let sequence = first-Neighbours es fresh_telemetry refl in
    record {
      requests = omega (
        arith,
        near.requests,
        total-length es,
        total_lem (λ s. s.requests) (λ e. 1) (λ t e. (adds t e).requests) es fresh_telemetry,
      );
      requested_bytes =
          capped_total (λ s. s.requested_bytes) _ es _ refl (λ t e. (adds t e).requested_bytes)
            near.requested_bytes;
      successful_requests =
          capped_total (λ s. s.successful_requests) _ es _ refl
            (λ t e. (adds t e).successful_requests) near.successful_requests;
      successful_bytes =
          capped_total (λ s. s.successful_bytes) _ es _ refl (λ t e. (adds t e).successful_bytes)
            near.successful_bytes;
      failed_requests =
          capped_total (λ s. s.failed_requests) _ es _ refl (λ t e. (adds t e).failed_requests)
            near.failed_requests;
      sequential_requests = omega (arith, near.sequential_requests, sequence.on);
      discontinuous_requests = omega (arith, near.discontinuous_requests, sequence.off);
      served_without_drive_io_requests =
          capped_total (λ s. s.served_without_drive_io_requests) _ es _ refl
            (λ t e. (adds t e).drive.served_without_drive_io_requests)
            near.served_without_drive_io_requests;
      served_without_drive_io_bytes =
          capped_total (λ s. s.served_without_drive_io_bytes) _ es _ refl
            (λ t e. (adds t e).drive.served_without_drive_io_bytes)
            near.served_without_drive_io_bytes;
      requests_with_drive_io =
          capped_total (λ s. s.requests_with_drive_io) _ es _ refl
            (λ t e. (adds t e).drive.requests_with_drive_io) near.requests_with_drive_io;
      physical_commands =
          capped_total (λ s. s.physical_commands) _ es _ refl
            (λ t e. (adds t e).drive.physical_commands) near.physical_commands;
      physical_sectors =
          capped_total (λ s. s.physical_sectors) _ es _ refl
            (λ t e. (adds t e).drive.physical_sectors) near.physical_sectors;
      physical_bytes =
          capped_total (λ s. s.physical_bytes) _ es _ refl (λ t e. (adds t e).drive.physical_bytes)
            near.physical_bytes;
      service_milliseconds =
          capped_total (λ s. s.service_milliseconds) _ es _ refl
            (λ t e. (adds t e).service_milliseconds) near.service_milliseconds;
      maximum_service_milliseconds =
          near.maximum_service_milliseconds
          ∙ slowest_lem es fresh_telemetry
          ∙ above_zero (slowest es);
    }
