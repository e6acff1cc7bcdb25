-- ===== src/Xbe/Cache/Rounds.antt =====
-- src/core/default_xbe_cache_source.c: the loop of `cache_read`.
use mathlib.Core.Path.{subst}
use gdox.Common.{
  ℕ, zero, suc, ◌+◌, ◌-◌, ◌*◌, ◌≤◌, ◌<◌, ◌≡◌, refl, sym, ◌∙◌, Bool, false, inl, inr, Option,
  Option-cases, none, some, List, ◌++◌, length, take, drop, min, length-append, length-take,
  length-drop, Image, slice, slice_ext, ◌==◌, arith, u64, u64_mod,
}
use gdox.Fault.{ErrorCode, Outcome, Outcome-cases, ok, failed, failed-ne-ok}
use gdox.Source.{sector_bytes, Source}
use gdox.Source.Dispatch.{read_buffer}
use gdox.Source.Image.{Serves}
use gdox.Xbe.Cache.{CacheContext, cached_at, inner_chunk, cache_rounds}
use gdox.Xbe.Cache.Shown.{
  caching, cached_image, Fits, cached_part, length_zero, cached_hit, cached_miss,
}
use gdox.Xbe.Cache.Filled.{Filled, combine}

-- Bytes of the cache are those of the image.
module _ {C : Type 0} (Good : Source C → Type 0) (sectors : ℕ) (img : Image)
    (serves : Serves Good sectors img) (bytes : Option (List ℕ)) (start count : ℕ)
    (fits : Fits bytes start count sectors) (small : start + count < u64_mod) where
  abbrev pub shown : Image
  shown = cached_image img bytes start

  abbrev pub IsFilled : Bool → ℕ → ℕ → List ℕ → Outcome × List ℕ × CacheContext C → Type 0
  IsFilled = Filled Good sectors img serves bytes start count fits

  hit :
      (aborted : Bool) (inner : Source C) (current remaining : ℕ) (output b : List ℕ)
      (rest : Outcome × List ℕ × CacheContext C)
      → length output ≡ remaining * sector_bytes
      → cached_at (caching inner bytes start count aborted) current ≡ some b
      → let copied = min (u64 (start + count) - current) remaining in
        IsFilled aborted
          (current + copied)
          (remaining - copied)
          (drop (copied * sector_bytes) output)
          rest
        → IsFilled aborted current remaining output (
          rest.0,
          take (copied * sector_bytes) (drop ((current - start) * sector_bytes) b) ++ rest.1,
          rest.2,
        )
  hit aborted inner current remaining output b rest size e filled =
      let (is_b, behind, before) = cached_hit inner bytes start count aborted current b small e in
      let copied = min (u64 (start + count) - current) remaining in
      let (whole, inside) = subst (λ o. Fits o start count sectors) is_b fits in
      let part =
        subst
          (λ o.
            take (copied * sector_bytes) (drop ((current - start) * sector_bytes) b)
            ≡ slice (cached_image img o start) (current * sector_bytes) (copied * sector_bytes))
          (sym is_b)
          (cached_part img b start current (copied * sector_bytes) behind (omega (arith, whole))) in
      combine Good sectors img serves bytes start count fits aborted current remaining copied output
        _ rest (omega arith) size part filled

  miss :
      (aborted : Bool) (inner : Source C) (current remaining : ℕ) (output : List ℕ)
      (rest : Outcome × List ℕ × CacheContext C)
      → length output ≡ remaining * sector_bytes
      → cached_at (caching inner bytes start count aborted) current ≡ none
      → 0 < remaining
      → Good inner
      → let chunk = inner_chunk (caching inner bytes start count aborted) current remaining in
        let got = read_buffer inner current chunk (take (chunk * sector_bytes) output) in
        got.0 ≡ ok
        → IsFilled aborted
            (current + chunk)
            (remaining - chunk)
            (drop (chunk * sector_bytes) output)
            rest
        → IsFilled aborted current remaining output (rest.0, got.1 ++ rest.1, rest.2)
  miss aborted inner current remaining output rest size e some_left good read filled =
      let (few, more, same) =
        cached_miss img inner bytes start count aborted current remaining sectors fits small e
          some_left in
      let chunk = inner_chunk (caching inner bytes start count aborted) current remaining in
      let (_, _, gives) =
        serves.reads inner current chunk (take (chunk * sector_bytes) output) good in
      combine Good sectors img serves bytes start count fits aborted current remaining chunk output
        _ rest few size
        (gives read
          ∙ slice_ext img shown (current * sector_bytes) (current * sector_bytes)
              (chunk * sector_bytes) same)
        filled

  done_round :
      (fuel : ℕ) (p : CacheContext C) (current : ℕ) (output : List ℕ)
      → cache_rounds fuel p current 0 output ≡ (ok, output, p)
  unfolding cache_rounds
  done_round zero p current output = refl
  done_round (suc fuel) p current output = refl

  hit_round :
      (fuel : ℕ) (aborted : Bool) (inner : Source C) (current remaining : ℕ) (output b : List ℕ)
      → 0 < remaining
      → cached_at (caching inner bytes start count aborted) current ≡ some b
      → let copied = min (u64 (start + count) - current) remaining in
        let rest =
          cache_rounds fuel
            (caching inner bytes start count aborted)
            (u64 (current + copied))
            (remaining - copied)
            (drop (copied * sector_bytes) output) in
        cache_rounds (suc fuel) (caching inner bytes start count aborted) current remaining output
        ≡ (
          rest.0,
          take (copied * sector_bytes) (drop ((current - start) * sector_bytes) b) ++ rest.1,
          rest.2,
        )
  unfolding cache_rounds
  hit_round fuel aborted inner current remaining output b h e =
      let nonzero : (remaining == 0) ≡ false = ground (arith, h) in
      rw (cache_rounds, nonzero, e) refl

  failed_round :
      (fuel : ℕ) (aborted : Bool) (inner : Source C) (current remaining : ℕ) (output : List ℕ)
      (code : ErrorCode)
      → 0 < remaining
      → cached_at (caching inner bytes start count aborted) current ≡ none
      → let chunk = inner_chunk (caching inner bytes start count aborted) current remaining in
        let got = read_buffer inner current chunk (take (chunk * sector_bytes) output) in
        got.0 ≡ failed code
        → cache_rounds (suc fuel) (caching inner bytes start count aborted) current remaining output
          ≡ (
            failed code,
            got.1 ++ drop (chunk * sector_bytes) output,
            caching got.2 bytes start count aborted,
          )
  unfolding cache_rounds
  failed_round fuel aborted inner current remaining output code h e read =
      let nonzero : (remaining == 0) ≡ false = ground (arith, h) in
      rw (cache_rounds, nonzero, e, read) refl

  miss_round :
      (fuel : ℕ) (aborted : Bool) (inner : Source C) (current remaining : ℕ) (output : List ℕ)
      → 0 < remaining
      → cached_at (caching inner bytes start count aborted) current ≡ none
      → let chunk = inner_chunk (caching inner bytes start count aborted) current remaining in
        let got = read_buffer inner current chunk (take (chunk * sector_bytes) output) in
        let rest =
          cache_rounds fuel
            (caching got.2 bytes start count aborted)
            (u64 (current + chunk))
            (remaining - chunk)
            (drop (chunk * sector_bytes) output) in
        got.0 ≡ ok
        → cache_rounds (suc fuel) (caching inner bytes start count aborted) current remaining output
          ≡ (rest.0, got.1 ++ rest.1, rest.2)
  unfolding cache_rounds
  miss_round fuel aborted inner current remaining output h e read =
      let nonzero : (remaining == 0) ≡ false = ground (arith, h) in
      rw (cache_rounds, nonzero, e, read) refl

  pub rounds-IsFilled :
      (fuel : ℕ) (aborted : Bool) (inner : Source C) (current remaining : ℕ) (output : List ℕ)
      → Good inner
      → remaining ≤ fuel
      → current + remaining ≤ sectors
      → length output ≡ remaining * sector_bytes
      → IsFilled aborted current remaining output
          (cache_rounds fuel (caching inner bytes start count aborted) current remaining output)
  rounds-IsFilled fuel aborted inner current zero output good enough inside size =
      rw (done_round fuel (caching inner bytes start count aborted) current output)
        ((inner, good, refl), refl, λ e. length_zero output (omega (arith, size)))
  rounds-IsFilled zero aborted inner current (suc remaining) output good enough inside size =
      absurd (omega arith)
  rounds-IsFilled (suc fuel) aborted inner current (suc left) output good enough inside size =
      let p = caching inner bytes start count aborted in
      let remaining = suc left in
      let some_left : 0 < remaining = omega arith in
      elim (Option-cases (cached_at p current)) [
        | inr (b, e) ↦
            let copied = min (u64 (start + count) - current) remaining in
            let (_, behind, before) =
              cached_hit inner bytes start count aborted current b small e in
            let next : u64 (current + copied) ≡ current + copied = omega (arith, serves.fits) in
            let rest =
              rounds-IsFilled fuel aborted inner (current + copied) (remaining - copied)
                (drop (copied * sector_bytes) output) good (omega arith) (omega arith)
                (omega (arith, length-drop (copied * sector_bytes) output)) in
            rw (hit_round fuel aborted inner current remaining output b some_left e, next)
              (hit aborted inner current remaining output b _ size e rest)
        | inl e ↦
            let chunk = inner_chunk p current remaining in
            let (few, more, _) =
              cached_miss img inner bytes start count aborted current remaining sectors fits small e
                some_left in
            let got = read_buffer inner current chunk (take (chunk * sector_bytes) output) in
            let (good', same, _) =
              serves.reads inner current chunk (take (chunk * sector_bytes) output) good in
            elim (Outcome-cases got.0) [
              | inr (code, read) ↦
                  rw
                    (failed_round fuel aborted inner current remaining output code some_left e read)
                    (
                      (got.2, good', refl),
                      omega (
                        arith,
                        same,
                        length-append got.1 (drop (chunk * sector_bytes) output),
                        length-take (chunk * sector_bytes) output,
                        length-drop (chunk * sector_bytes) output,
                      ),
                      λ impossible. absurd (failed-ne-ok code impossible),
                    )
              | inl read ↦
                  let next : u64 (current + chunk) ≡ current + chunk = omega (arith, serves.fits) in
                  let rest =
                    rounds-IsFilled fuel aborted got.2 (current + chunk) (remaining - chunk)
                      (drop (chunk * sector_bytes) output) good' (omega arith) (omega arith)
                      (omega (arith, length-drop (chunk * sector_bytes) output)) in
                  rw (miss_round fuel aborted inner current remaining output some_left e read, next)
                    (miss aborted inner current remaining output _ size e some_left good read rest)
            ]
      ]
