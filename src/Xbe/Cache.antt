-- ===== src/Xbe/Cache.antt =====
-- src/core/default_xbe_cache_source.c: a source that keeps the sectors of the default executable in
-- memory, patched, in front of another source.
pub mod Shown
pub mod Filled
pub mod Rounds
pub mod Serve
pub mod Make
use gdox.Common.{
  ℕ, zero, suc, ◌+◌, ◌-◌, ◌*◌, Bool, true, false, ◌&&◌, Option, none, some, List, [], ◌∷◌, ◌++◌,
  length, take, drop, min, ltb, leb, ◌==◌, if◌then◌else◌, u64,
}
use gdox.Fault.{cancelled, Outcome, ok, failed}
use gdox.Source.{sector_bytes, PhysicalReadStats, MediaObservation, DiscEvidence, SourceOps, Source}
use gdox.Source.Dispatch.{
  source_sector_count, read_buffer, source_media_present, source_observe_media, source_evidence,
  source_physical_read_stats, source_abort, source_prepare_close, source_close,
}

-- `default_xbe_cache_context`
pub record CacheContext (C : Type 0) : Type 0 where
  pub inner : Source C
  pub bytes : Option (List ℕ)
  pub start_sector : ℕ
  pub sectors : ℕ
  pub aborted : Bool

module _ {C : Type 0} where
  pub cache_sector_count : CacheContext C → ℕ
  cache_sector_count p = source_sector_count p.inner

  -- The cached bytes, where the sector is one of them
  unfoldable pub cached_at : CacheContext C → ℕ → Option (List ℕ)
  cached_at p current = elim p.bytes [
    | none ↦ none
    | some bytes ↦
        if leb p.start_sector current && ltb current (u64 (p.start_sector + p.sectors))
        then some bytes
        else none
  ]

  -- The length of the next read of the inner source: up to the cached sectors, if they lie ahead.
  unfoldable pub inner_chunk : CacheContext C → ℕ → ℕ → ℕ
  inner_chunk p current remaining = elim p.bytes [
    | none ↦ remaining
    | some bytes ↦
        if ltb current p.start_sector then min (p.start_sector - current) remaining else remaining
  ]

  -- The loop of `cache_read`, with the part of the buffer from the output offset on, and what it
  -- becomes. Each round fills at least one sector, so that the number of blocks is enough fuel.
  unfoldable pub cache_rounds :
      ℕ → CacheContext C → ℕ → ℕ → List ℕ → Outcome × List ℕ × CacheContext C
  cache_rounds zero p current remaining output = (ok, output, p)
  cache_rounds (suc fuel) p current remaining output =
      let copied = min (u64 (p.start_sector + p.sectors) - current) remaining in
      let chunk = inner_chunk p current remaining in
      elim (remaining == 0) [
        | true ↦ (ok, output, p)
        | false ↦ elim (cached_at p current) [
          | some bytes ↦
              let (result, rest, p') =
                cache_rounds fuel p (u64 (current + copied)) (remaining - copied)
                  (drop (copied * sector_bytes) output) in
              (
                result,
                take (copied * sector_bytes)
                      (drop ((current - p.start_sector) * sector_bytes) bytes)
                    ++ rest,
                p',
              )
          | none ↦
              let (read, part, inner) =
                read_buffer p.inner current chunk (take (chunk * sector_bytes) output) in
              elim read [
                | failed code ↦ (
                  failed code,
                  part ++ drop (chunk * sector_bytes) output,
                  record p { inner = inner },
                )
                | ok ↦
                    let (result, rest, p') =
                      cache_rounds fuel (record p { inner = inner }) (u64 (current + chunk))
                        (remaining - chunk) (drop (chunk * sector_bytes) output) in
                    (result, part ++ rest, p')
              ]
        ]
      ]

  pub cache_read : CacheContext C → ℕ → ℕ → List ℕ → Outcome × List ℕ × CacheContext C
  cache_read p lba blocks output =
      if p.aborted then (failed cancelled, output, p) else cache_rounds blocks p lba blocks output

  pub cache_media_present : CacheContext C → Bool
  cache_media_present p = source_media_present p.inner

  pub cache_observe_media : CacheContext C → MediaObservation → MediaObservation
  cache_observe_media p output = (source_observe_media p.inner).1

  pub cache_evidence : CacheContext C → DiscEvidence → Bool × DiscEvidence
  cache_evidence p output = source_evidence p.inner

  pub cache_physical_read_stats : CacheContext C → PhysicalReadStats → Bool × PhysicalReadStats
  cache_physical_read_stats p output = source_physical_read_stats p.inner

  pub cache_abort : CacheContext C → CacheContext C
  cache_abort p = record p { inner = source_abort p.inner; aborted = true }

  pub cache_prepare_close : CacheContext C → Outcome × CacheContext C
  cache_prepare_close p =
      let (result, inner) = source_prepare_close p.inner in (result, record p { inner = inner })

  pub cache_close : CacheContext C → Outcome
  cache_close p = (source_close p.inner).0

  abbrev pub cache_ops : SourceOps (CacheContext C)
  cache_ops = record {
    sector_count = some cache_sector_count;
    read = some cache_read;
    media_present = some cache_media_present;
    close = some cache_close;
    evidence = some cache_evidence;
    physical_read_stats = some cache_physical_read_stats;
    abort = some cache_abort;
    prepare_close = some cache_prepare_close;
    observe_media = some cache_observe_media;
  }
