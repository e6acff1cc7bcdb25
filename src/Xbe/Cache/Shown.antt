-- ===== src/Xbe/Cache/Shown.antt =====
-- src/core/default_xbe_cache_source.c: the image that a cache shows.
use gdox.Common.{
  ℕ, ◌+◌, ◌-◌, ◌*◌, ◌≤◌, ◌<◌, ◌≡◌, refl, ap, ◌∙◌, Bool, Bool-cases, inl, inr, ◌&&◌, Option, none,
  some, List, [], ◌∷◌, length, take, drop, get_or, ltb, leb, Image, slice, slice_ext, slice_of_list,
  take-slice, drop-slice, if◌then◌else◌, arith, u64_mod,
}
use gdox.Source.{sector_bytes, Source}
use gdox.Source.Dispatch.{handle}
use gdox.Xbe.Cache.{CacheContext, cache_ops, cached_at, inner_chunk}

-- The context of a cache with these fields, and its handle
abbrev pub caching : {C : Type 0} → Source C → Option (List ℕ) → ℕ → ℕ → Bool → CacheContext C
caching inner bytes start count aborted = record {
  inner = inner;
  bytes = bytes;
  start_sector = start;
  sectors = count;
  aborted = aborted;
}

abbrev pub cache_on :
    {C : Type 0} → Source C → Option (List ℕ) → ℕ → ℕ → Bool → Source (CacheContext C)
cache_on inner bytes start count aborted =
    handle (caching inner bytes start count aborted) cache_ops

-- The image with the cached bytes over it
unfoldable pub cached_image : Image → Option (List ℕ) → ℕ → Image
cached_image img none start i = img i
cached_image img (some bytes) start i =
    if leb (start * sector_bytes) i && ltb i (start * sector_bytes + length bytes)
    then get_or bytes (i - start * sector_bytes) 0
    else img i

-- The cached bytes are those of sectors of a source with so many.
abbrev pub Fits : Option (List ℕ) → ℕ → ℕ → ℕ → Type 0
Fits none start count sectors = Unit {0}
Fits (some bytes) start count sectors =
    (length bytes ≡ count * sector_bytes) × (start + count ≤ sectors)

-- The caches, aborted or not, of the handles in `Good`.
abbrev pub CacheOf :
    {C : Type 0} → (Source C → Type 0) → Option (List ℕ) → ℕ → ℕ → Source (CacheContext C) → Type 0
CacheOf Good bytes start count s =
    (inner : _) × (aborted : Bool) × Good inner × (s ≡ cache_on inner bytes start count aborted)

pub length_zero : (l : List ℕ) → length l ≡ 0 → l ≡ []
length_zero [] e = refl
length_zero (x ∷ l) e = absurd (omega arith)

pub cached_part :
    (img : Image) (b : List ℕ) (start current n : ℕ)
    → start ≤ current
    → (current - start) * sector_bytes + n ≤ length b
    → take n (drop ((current - start) * sector_bytes) b)
      ≡ slice (cached_image img (some b) start) (current * sector_bytes) n
unfolding cached_image
cached_part img b start current n h inside =
    let skipped = (current - start) * sector_bytes in
    let own : Image = λ i. get_or b i 0 in
    ap (λ l. take n (drop skipped l)) (slice_of_list b)
    ∙ ap (take n) (drop-slice own 0 (length b) skipped)
    ∙ take-slice own (0 + skipped) (length b - skipped) n (omega arith)
    ∙ slice_ext own (cached_image img (some b) start) (0 + skipped) (current * sector_bytes) n
        (λ i hi.
          let place : 0 + skipped + i ≡ current * sector_bytes + i - start * sector_bytes =
            omega arith in
          ap own place ∙ ground arith)

pub cached_hit :
    {C : Type 0} (inner : Source C) (bytes : Option (List ℕ)) (start count : ℕ) (aborted : Bool)
    (current : ℕ) (b : List ℕ)
    → start + count < u64_mod
    → cached_at (caching inner bytes start count aborted) current ≡ some b
    → (bytes ≡ some b) × (start ≤ current) × (current < start + count)
unfolding cached_at
cached_hit inner none start count aborted current b small e = absurd (ground (arith, e))
cached_hit inner (some own) start count aborted current b small e =
    (ground (arith, e), ground (arith, e), ground (arith, e))

-- Off the cache the image is the inner one, up to the end of the chunk that is read.
pub cached_miss :
    {C : Type 0} (img : Image) (inner : Source C) (bytes : Option (List ℕ)) (start count : ℕ)
    (aborted : Bool) (current remaining sectors : ℕ)
    → Fits bytes start count sectors
    → start + count < u64_mod
    → cached_at (caching inner bytes start count aborted) current ≡ none
    → 0 < remaining
    → let chunk = inner_chunk (caching inner bytes start count aborted) current remaining in
      (chunk ≤ remaining)
      × (0 < chunk)
      × ((i : ℕ)
          → i < chunk * sector_bytes
          → img (current * sector_bytes + i)
            ≡ cached_image img bytes start (current * sector_bytes + i))
unfolding cached_at inner_chunk cached_image
cached_miss img inner none start count aborted current remaining sectors fits small e some_left =
    (omega arith, omega arith, λ i h. refl)
cached_miss img inner (some own) start count aborted current remaining sectors fits small e
      some_left =
    elim (Bool-cases (ltb current start)) [
      | inl before ↦
          (ground (arith, before), ground (arith, before), λ i h. ground (arith, before, h))
      | inr behind ↦
          let past : start + count ≤ current = ground (arith, behind, e) in
          (ground (arith, behind), ground (arith, behind), λ i h. ground (arith, behind, h, past))
    ]
