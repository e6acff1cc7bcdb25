-- ===== src/Xbe/Cache/Serve.antt =====
-- src/core/default_xbe_cache_source.c: what the cache source serves.
use mathlib.Core.Path.{subst}
use mathlib.Core.Logic.{◌≢◌}
use gdox.Common.{
  ℕ, ◌+◌, ◌*◌, ◌≤◌, ◌<◌, ◌≡◌, refl, ap, Bool, true, false, Option, List, length, Image,
  if◌then◌else◌, arith, u64, u64_mod,
}
use gdox.Fault.{ok, failed, by_outcome, failed-ne-ok, cancelled}
use gdox.Source.{sector_bytes, Source, validate_read}
use gdox.Source.Dispatch.{
  handle, opened, read_through, source_is_valid, source_sector_count, read_buffer, source_abort,
}
use gdox.Source.Image.{Reads, Serves, validate_read-in_bounds}
use gdox.Xbe.Cache.{cache_ops, cache_sector_count, cache_read, cache_abort, cache_rounds}
use gdox.Xbe.Cache.Shown.{caching, cache_on, cached_image, Fits, CacheOf}
use gdox.Xbe.Cache.Rounds.{rounds-IsFilled}

module _ {C : Type 0} where
  -- A read of a cache is checked against the inner source's sectors, then refused or served.
  cache_read_lem :
      (inner : Source C) (bytes : Option (List ℕ)) (start count : ℕ) (aborted : Bool)
      (lba blocks : ℕ) (output : List ℕ)
      → let p = caching inner bytes start count aborted in
        read_buffer (cache_on inner bytes start count aborted) lba blocks output
        ≡ elim (validate_read (source_sector_count inner) lba blocks (length output)) [
          | failed code ↦ (failed code, output, cache_on inner bytes start count aborted)
          | ok ↦
              let (result, buffer, p') =
                if aborted
                then (failed cancelled, output, p)
                else cache_rounds blocks p lba blocks output in
              (result, buffer, handle p' cache_ops)
        ]
  unfolding read_buffer opened read_through cache_read cache_sector_count
  cache_read_lem inner bytes start count aborted lba blocks output = ground arith

  cache_aborts :
      (inner : Source C) (bytes : Option (List ℕ)) (start count : ℕ) (aborted : Bool)
      → source_abort (cache_on inner bytes start count aborted)
        ≡ cache_on (source_abort inner) bytes start count true
  unfolding opened source_abort cache_abort
  cache_aborts inner bytes start count aborted = refl

  -- After an abort every read is refused and touches nothing, of a cached sector too.
  pub aborted_reads :
      (inner : Source C) (bytes : Option (List ℕ)) (start count : ℕ) (aborted : Bool)
      (lba blocks : ℕ) (output : List ℕ)
      → let s = source_abort (cache_on inner bytes start count aborted) in
        ((read_buffer s lba blocks output).0 ≢ ok) × ((read_buffer s lba blocks output).1 ≡ output)
  aborted_reads inner bytes start count aborted lba blocks output =
      rw
        (
          cache_aborts inner bytes start count aborted,
          cache_read_lem (source_abort inner) bytes start count true lba blocks output,
        )
        (ground arith)

accepted_length :
    (sectors lba blocks output_bytes : ℕ)
    → sectors * sector_bytes < u64_mod
    → validate_read sectors lba blocks output_bytes ≡ ok
    → (lba + blocks ≤ sectors) × (output_bytes ≡ blocks * sector_bytes)
unfolding validate_read
accepted_length sectors lba blocks output_bytes bounded h =
    let (some_blocks, inside) = validate_read-in_bounds sectors lba blocks output_bytes h in
    let small : u64 (blocks * sector_bytes) ≡ blocks * sector_bytes = omega arith in
    (inside, ground (arith, h, small))

module _ {C : Type 0} (Good : Source C → Type 0) (sectors : ℕ) (img : Image)
    (bytes : Option (List ℕ)) (start count : ℕ) where
  cache-Reads :
      Serves Good sectors img
      → sectors * sector_bytes < u64_mod
      → Fits bytes start count sectors
      → start + count < u64_mod
      → (inner : Source C) (aborted : Bool) (lba blocks : ℕ) (output : List ℕ) → Good inner
      → Reads
          (CacheOf Good bytes start count)
          (cached_image img bytes start)
          lba
          blocks
          output
          (read_buffer (cache_on inner bytes start count aborted) lba blocks output)
  cache-Reads serves bounded fits small inner true lba blocks output good =
      rw (cache_read_lem inner bytes start count true lba blocks output) (
        by_outcome
          (Reads (CacheOf Good bytes start count) (cached_image img bytes start) lba blocks output)
          (validate_read (source_sector_count inner) lba blocks (length output)) _ _
          (λ code. ((inner, true, good, refl), refl, λ e. absurd (failed-ne-ok code e)))
          (λ accepted. ((inner, true, good, refl), refl, λ e. absurd (failed-ne-ok cancelled e))))
  cache-Reads serves bounded fits small inner false lba blocks output good =
      rw (cache_read_lem inner bytes start count false lba blocks output) (
        by_outcome
          (Reads (CacheOf Good bytes start count) (cached_image img bytes start) lba blocks output)
          (validate_read (source_sector_count inner) lba blocks (length output)) _ _
          (λ code. ((inner, false, good, refl), refl, λ e. absurd (failed-ne-ok code e)))
          (λ accepted.
            let (inside, size) = accepted_length sectors lba blocks (length output) bounded (
              subst (λ n. validate_read n lba blocks (length output) ≡ ok) (serves.count inner good)
                accepted) in
            let ((inner', good', e), same, gives) =
              rounds-IsFilled Good sectors img serves bytes start count fits small blocks false
                inner lba blocks output good (omega arith) inside size in
            ((inner', false, good', ap (λ p. handle p cache_ops) e), same, gives)))

  -- The caches of the sources that serve an image serve it with the cached bytes over it: a read
  -- that crosses the ends of the cached sectors is put together from the cache and the source, and
  -- one that fails leaves the cache as good as it was.
  pub cache-Serves :
      Serves Good sectors img
      → sectors * sector_bytes < u64_mod
      → Fits bytes start count sectors
      → start + count < u64_mod
      → Serves (CacheOf Good bytes start count) sectors (cached_image img bytes start)
  unfolding source_is_valid source_sector_count opened cache_sector_count
  cache-Serves serves bounded fits small = record {
    fits = serves.fits;
    valid = λ s (inner, aborted, good, e). rw e refl;
    count = λ s (inner, aborted, good, e). rw e (serves.count inner good);
    reads = λ s lba blocks output (inner, aborted, good, e).
        rw e (cache-Reads serves bounded fits small inner aborted lba blocks output good);
  }
