-- ===== src/Xbe/Cache/Filled.antt =====
-- src/core/default_xbe_cache_source.c: what the loop of `cache_read` leaves, put together from its
-- rounds.
use gdox.Common.{
  ℕ, ◌+◌, ◌-◌, ◌*◌, ◌≤◌, ◌≡◌, ap, ap₂, ◌∙◌, Bool, Option, List, ◌++◌, length, drop, length-append,
  length-drop, Image, slice, slice-append, length-slice, arith,
}
use gdox.Fault.{Outcome, ok}
use gdox.Source.{sector_bytes, Source}
use gdox.Source.Image.{Serves}
use gdox.Xbe.Cache.{CacheContext}
use gdox.Xbe.Cache.Shown.{caching, cached_image, Fits}

module _ {C : Type 0} (Good : Source C → Type 0) (sectors : ℕ) (img : Image)
    (serves : Serves Good sectors img) (bytes : Option (List ℕ)) (start count : ℕ)
    (fits : Fits bytes start count sectors) where
  abbrev pub out : Image
  out = cached_image img bytes start

  -- What the rounds leave, from a sector on
  abbrev pub Filled : Bool → ℕ → ℕ → List ℕ → Outcome × List ℕ × CacheContext C → Type 0
  Filled aborted current remaining output (result, buffer, p) =
      ((inner : Source C) × Good inner × (p ≡ caching inner bytes start count aborted))
      × (length buffer ≡ length output)
      × (result ≡ ok → buffer ≡ slice out (current * sector_bytes) (remaining * sector_bytes))

  pub combine :
      (aborted : Bool) (current remaining chunk : ℕ) (output part : List ℕ)
      (rest : Outcome × List ℕ × CacheContext C)
      → chunk ≤ remaining
      → length output ≡ remaining * sector_bytes
      → part ≡ slice out (current * sector_bytes) (chunk * sector_bytes)
      → Filled aborted
          (current + chunk)
          (remaining - chunk)
          (drop (chunk * sector_bytes) output)
          rest
      → Filled aborted current remaining output (rest.0, part ++ rest.1, rest.2)
  combine aborted current remaining chunk output part (result, later, p) few size is_part
        (good, same, gives) =
      let len : length part ≡ chunk * sector_bytes = ap length is_part ∙ length-slice out _ _ in
      let start_of : (current + chunk) * sector_bytes
          ≡ current * sector_bytes + chunk * sector_bytes =
        omega arith in
      let in_all : chunk * sector_bytes + (remaining - chunk) * sector_bytes
          ≡ remaining * sector_bytes =
        omega arith in
      (
        good,
        omega
            (arith, length-append part later, length-drop (chunk * sector_bytes) output, len, same),
        λ e.
            ap₂ ◌++◌ is_part
              (gives e ∙ ap (λ s. slice out s ((remaining - chunk) * sector_bytes)) start_of)
            ∙ slice-append out (current * sector_bytes) _ _
            ∙ ap (slice out (current * sector_bytes)) in_all,
      )
