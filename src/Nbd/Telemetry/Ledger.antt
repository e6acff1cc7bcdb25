-- ===== src/Nbd/Telemetry/Ledger.antt =====
-- src/platform/nbd_telemetry.c: the counters, with an addition that saturates and with one that does
-- not, and what the latter come to.
use gdox.Common.{
  ℕ, ◌+◌, ◌≡◌, refl, Bool, false, Option-cases, inl, inr, List, [], ◌∷◌, min, u64_max, arith,
}
use gdox.Source.{PhysicalReadStats}
use gdox.Nbd.Telemetry.{
  ReadStats, Telemetry, no_reads, ReadEvent, saturating_add_u64, physical_delta, count_request,
  count_sequence, count_result, count_drive_io, add_physical, count_physical, record_with,
  telemetry_record,
}

-- Each counter is the ledger's, cut off at the greatest word.
pub record Approximates (s exact : ReadStats) : Type 0 where
  pub requests : s.requests ≡ min exact.requests u64_max
  pub requested_bytes : s.requested_bytes ≡ min exact.requested_bytes u64_max
  pub successful_requests : s.successful_requests ≡ min exact.successful_requests u64_max
  pub successful_bytes : s.successful_bytes ≡ min exact.successful_bytes u64_max
  pub failed_requests : s.failed_requests ≡ min exact.failed_requests u64_max
  pub sequential_requests : s.sequential_requests ≡ min exact.sequential_requests u64_max
  pub discontinuous_requests : s.discontinuous_requests ≡ min exact.discontinuous_requests u64_max
  pub served_without_drive_io_requests :
      s.served_without_drive_io_requests ≡ min exact.served_without_drive_io_requests u64_max
  pub served_without_drive_io_bytes :
      s.served_without_drive_io_bytes ≡ min exact.served_without_drive_io_bytes u64_max
  pub requests_with_drive_io : s.requests_with_drive_io ≡ min exact.requests_with_drive_io u64_max
  pub physical_commands : s.physical_commands ≡ min exact.physical_commands u64_max
  pub physical_sectors : s.physical_sectors ≡ min exact.physical_sectors u64_max
  pub physical_bytes : s.physical_bytes ≡ min exact.physical_bytes u64_max
  pub service_milliseconds : s.service_milliseconds ≡ min exact.service_milliseconds u64_max
  pub maximum_service_milliseconds :
      s.maximum_service_milliseconds ≡ exact.maximum_service_milliseconds

saturating_add_u64-min : (a b : ℕ) → saturating_add_u64 (min a u64_max) b ≡ min (a + b) u64_max
unfolding saturating_add_u64
saturating_add_u64-min a b = ground arith

module _ (e : ReadEvent) {s exact : ReadStats} (near : Approximates s exact) where
  request_near : Approximates (count_request saturating_add_u64 e s) (count_request ◌+◌ e exact)
  unfolding count_request saturating_add_u64
  request_near = ground arith

  sequence_near :
      (end : ℕ) (valid : Bool)
      → Approximates
          (count_sequence saturating_add_u64 end valid e s)
          (count_sequence ◌+◌ end valid e exact)
  unfolding count_sequence saturating_add_u64
  sequence_near end valid = ground arith

  result_near : Approximates (count_result saturating_add_u64 e s) (count_result ◌+◌ e exact)
  unfolding count_result saturating_add_u64
  result_near = ground arith

  drive_io_near :
      (delta : PhysicalReadStats)
      → Approximates
          (count_drive_io saturating_add_u64 e delta s)
          (count_drive_io ◌+◌ e delta exact)
  unfolding count_drive_io saturating_add_u64
  drive_io_near delta = ground arith

  -- What `count_physical` adds before it looks at the commands.
  added :
      (delta : PhysicalReadStats)
      → Approximates (add_physical saturating_add_u64 delta s) (add_physical ◌+◌ delta exact)
  unfolding add_physical saturating_add_u64
  added delta = ground arith

module _ (e : ReadEvent) {s exact : ReadStats} (near : Approximates s exact) where
  physical_near : Approximates (count_physical saturating_add_u64 e s) (count_physical ◌+◌ e exact)
  unfolding count_physical
  physical_near = elim (Option-cases (physical_delta e.physical_before e.physical_after)) [
    | inl unknown ↦ rw (unknown, count_physical) near
    | inr (delta, known) ↦ rw (known, count_physical) (drive_io_near e (added e near delta) delta)
  ]

-- The telemetry follows the ledger: near counters, and the same end of the read before.
pub record Follows (t exact : Telemetry) : Type 0 where
  pub near : Approximates t.reads exact.reads
  pub same_end : t.previous_read_end ≡ exact.previous_read_end
  pub same_valid : t.previous_read_valid ≡ exact.previous_read_valid

-- The ledger's own record of an event.
abbrev pub ledger_record : Telemetry → ReadEvent → Telemetry
ledger_record = record_with ◌+◌

unfoldable pub record_all :
    (Telemetry → ReadEvent → Telemetry) → Telemetry → List ReadEvent → Telemetry
record_all step t [] = t
record_all step t (e ∷ es) = record_all step (step t e) es

step-Follows :
    (e : ReadEvent) {t exact : Telemetry}
    → Follows t exact
    → Follows (telemetry_record t e) (ledger_record exact e)
unfolding telemetry_record record_with
step-Follows e {t} {exact} follows = record {
  near = physical_near e (
      result_near e (
        rw (← follows.same_end, ← follows.same_valid)
          (sequence_near e (request_near e follows.near) t.previous_read_end
            t.previous_read_valid)));
  same_end = rw follows.same_end refl;
  same_valid = rw follows.same_valid refl;
}

pub all_follow :
    (es : List ReadEvent) {t exact : Telemetry}
    → Follows t exact
    → Follows (record_all telemetry_record t es) (record_all ledger_record exact es)
unfolding record_all
all_follow [] follows = follows
all_follow (e ∷ es) follows = all_follow es (step-Follows e follows)

abbrev pub fresh_telemetry : Telemetry
fresh_telemetry = record { reads = no_reads; previous_read_end = 0; previous_read_valid = false }
