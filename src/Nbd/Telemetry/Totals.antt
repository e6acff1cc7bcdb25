-- ===== src/Nbd/Telemetry/Totals.antt =====
-- src/platform/nbd_telemetry.c: what the counters of the server are to say of a list of reads, without
-- a bound.
use gdox.Common.{
  ℕ, ◌+◌, ◌-◌, Bool, false, not, ◌&&◌, Option, none, some, List, [], ◌∷◌, length, ltb, leb, ◌==◌,
  if◌then◌else◌, min, ◌≡◌, u64, u64_max,
}
use gdox.Source.{PhysicalReadStats}
use gdox.Nbd.Telemetry.{ReadStats, ReadEvent}

-- The sum of a number over the reads
unfoldable pub total : (ReadEvent → ℕ) → List ReadEvent → ℕ
total f [] = 0
total f (e ∷ es) = f e + total f es

abbrev pub one_when : Bool → ℕ
one_when b = if b then 1 else 0

-- The statistics of the drive around a read, where both are known and none of them fell
unfoldable pub measured : ReadEvent → Option (PhysicalReadStats × PhysicalReadStats)
measured e = elim e.physical_before [
  | none ↦ none
  | some before ↦ elim e.physical_after [
    | none ↦ none
    | some after ↦
        if leb before.commands after.commands
          && leb before.sectors after.sectors
          && leb before.bytes after.bytes
        then some (before, after)
        else none
  ]
]

-- By how much a statistic of the drive grew over a read
unfoldable pub grown : (PhysicalReadStats → ℕ) → ReadEvent → ℕ
grown statistic e = elim (measured e) [
  | none ↦ 0
  | some (before, after) ↦ statistic after - statistic before
]

-- The drive was measured and took no command.
unfoldable pub without_drive : ReadEvent → Bool
without_drive e = elim (measured e) [
  | none ↦ false
  | some (before, after) ↦ after.commands == before.commands
]

-- The reads that belong to the sequence
unfoldable pub sequenced : List ReadEvent → List ReadEvent
sequenced [] = []
sequenced (e ∷ es) = let rest = sequenced es in if e.sequence_valid then e ∷ rest else rest

-- How many reads stand so to the one before
unfoldable pub neighbours : (ReadEvent → ReadEvent → Bool) → List ReadEvent → ℕ
neighbours related [] = 0
neighbours related (e ∷ []) = 0
neighbours related (e ∷ e' ∷ es) = one_when (related e e') + neighbours related (e' ∷ es)

-- The second read starts where the first ended.
unfoldable pub continues : ReadEvent → ReadEvent → Bool
continues e e' = e'.offset == u64 (e.offset + e.length)

-- The longest time of a read
unfoldable pub slowest : List ReadEvent → ℕ
slowest [] = 0
slowest (e ∷ es) = let rest = slowest es in if ltb rest e.elapsed_ms then e.elapsed_ms else rest

-- A word that holds a number, or the greatest word where the number is greater
abbrev pub Capped : ℕ → ℕ → Type 0
Capped word number = word ≡ min number u64_max

-- The counters of a list of reads
pub record Counts (es : List ReadEvent) (s : ReadStats) : Type 0 where
  pub requests : Capped s.requests (length es)
  pub requested_bytes : Capped s.requested_bytes (total (λ e. e.length) es)
  pub successful_requests : Capped s.successful_requests (total (λ e. one_when e.succeeded) es)
  pub successful_bytes :
      Capped s.successful_bytes (total (λ e. if e.succeeded then e.length else 0) es)
  pub failed_requests : Capped s.failed_requests (total (λ e. one_when (not e.succeeded)) es)
  pub sequential_requests : Capped s.sequential_requests (neighbours continues (sequenced es))
  pub discontinuous_requests :
      Capped s.discontinuous_requests (neighbours (λ e e'. not (continues e e')) (sequenced es))
  pub served_without_drive_io_requests :
      Capped s.served_without_drive_io_requests
        (total (λ e. one_when (without_drive e && e.succeeded)) es)
  pub served_without_drive_io_bytes :
      Capped s.served_without_drive_io_bytes
        (total (λ e. if without_drive e && e.succeeded then e.length else 0) es)
  pub requests_with_drive_io :
      Capped s.requests_with_drive_io
        (total (λ e. one_when (not (grown (λ p. p.commands) e == 0))) es)
  pub physical_commands : Capped s.physical_commands (total (grown (λ p. p.commands)) es)
  pub physical_sectors : Capped s.physical_sectors (total (grown (λ p. p.sectors)) es)
  pub physical_bytes : Capped s.physical_bytes (total (grown (λ p. p.bytes)) es)
  pub service_milliseconds : Capped s.service_milliseconds (total (λ e. e.elapsed_ms) es)
  pub maximum_service_milliseconds : s.maximum_service_milliseconds ≡ slowest es
