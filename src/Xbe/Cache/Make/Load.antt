-- ===== src/Xbe/Cache/Make/Load.antt =====
-- src/core/default_xbe_cache_source.c: the loop that fills the cache.
use gdox.Common.{
  ℕ, zero, suc, ◌+◌, ◌-◌, ◌*◌, ◌≤◌, ◌<◌, ◌≡◌, refl, sym, ap, ap₂, ◌∙◌, false, inl, inr, List, ◌++◌,
  length, take, drop, min, ◌==◌, length-append, length-take, length-drop, Image, slice,
  slice-append, length-slice, arith, u64,
}
use gdox.Fault.{ErrorCode, Outcome, Outcome-cases, ok, failed, failed-ne-ok}
use gdox.Source.{sector_bytes, Source, validate_read}
use gdox.Source.Dispatch.{read_buffer}
use gdox.Source.Image.{Serves, Reliable, validate_read-ok_iff}
use gdox.Xbe.Cache.Shown.{length_zero}
use gdox.Xbe.Cache.Make.{load_rounds, cache_read_blocks}

module _ {C : Type 0} (Good : Source C → Type 0) (sectors : ℕ) (img : Image)
    (serves : Serves Good sectors img) where
  -- What the loop leaves: a good handle, as many bytes, and, if it succeeded, those of the image;
  -- where reads are reliable it succeeds.
  abbrev pub Loaded : ℕ → ℕ → List ℕ → Outcome × List ℕ × Source C → Type 0
  Loaded lba remaining cache (result, bytes, s) =
      Good s
      × (length bytes ≡ length cache)
      × (result ≡ ok → bytes ≡ slice img (lba * sector_bytes) (remaining * sector_bytes))
      × (Reliable Good sectors → result ≡ ok)

  done_round :
      (fuel : ℕ) (s : Source C) (lba : ℕ) (cache : List ℕ)
      → load_rounds fuel s lba 0 cache ≡ (ok, cache, s)
  unfolding load_rounds
  done_round zero s lba cache = refl
  done_round (suc fuel) s lba cache = refl

  failed_round :
      (fuel : ℕ) (s : Source C) (lba remaining : ℕ) (cache : List ℕ) (code : ErrorCode)
      → 0 < remaining
      → let blocks = min remaining cache_read_blocks in
        let got = read_buffer s lba blocks (take (blocks * sector_bytes) cache) in
        got.0 ≡ failed code
        → load_rounds (suc fuel) s lba remaining cache
          ≡ (failed code, got.1 ++ drop (blocks * sector_bytes) cache, got.2)
  unfolding load_rounds
  failed_round fuel s lba remaining cache code h read =
      let nonzero : (remaining == 0) ≡ false = ground (arith, h) in
      rw (load_rounds, nonzero, read) refl

  read_round :
      (fuel : ℕ) (s : Source C) (lba remaining : ℕ) (cache : List ℕ)
      → 0 < remaining
      → let blocks = min remaining cache_read_blocks in
        let got = read_buffer s lba blocks (take (blocks * sector_bytes) cache) in
        let rest =
          load_rounds fuel got.2
            (u64 (lba + blocks))
            (remaining - blocks)
            (drop (blocks * sector_bytes) cache) in
        got.0 ≡ ok
        → load_rounds (suc fuel) s lba remaining cache ≡ (rest.0, got.1 ++ rest.1, rest.2)
  unfolding load_rounds
  read_round fuel s lba remaining cache h read =
      let nonzero : (remaining == 0) ≡ false = ground (arith, h) in
      rw (load_rounds, nonzero, read) refl

  combine :
      (lba remaining blocks : ℕ) (cache part : List ℕ) (rest : Outcome × List ℕ × Source C)
      → blocks ≤ remaining
      → length cache ≡ remaining * sector_bytes
      → part ≡ slice img (lba * sector_bytes) (blocks * sector_bytes)
      → Loaded (lba + blocks) (remaining - blocks) (drop (blocks * sector_bytes) cache) rest
      → Loaded lba remaining cache (rest.0, part ++ rest.1, rest.2)
  combine lba remaining blocks cache part (result, later, s) few size is_part
        (good, same, gives, sure) =
      let len : length part ≡ blocks * sector_bytes = ap length is_part ∙ length-slice img _ _ in
      let start_of : (lba + blocks) * sector_bytes ≡ lba * sector_bytes + blocks * sector_bytes =
        omega arith in
      let in_all : blocks * sector_bytes + (remaining - blocks) * sector_bytes
          ≡ remaining * sector_bytes =
        omega arith in
      (
        good,
        omega
            (arith, length-append part later, length-drop (blocks * sector_bytes) cache, len, same),
        λ e.
            ap₂ ◌++◌ is_part
              (gives e ∙ ap (λ s. slice img s ((remaining - blocks) * sector_bytes)) start_of)
            ∙ slice-append img (lba * sector_bytes) _ _
            ∙ ap (slice img (lba * sector_bytes)) in_all,
        sure,
      )

  accepted :
      (lba remaining : ℕ) (cache : List ℕ)
      → 0 < remaining
      → lba + remaining ≤ sectors
      → length cache ≡ remaining * sector_bytes
      → let blocks = min remaining cache_read_blocks in
        validate_read sectors lba blocks (length (take (blocks * sector_bytes) cache)) ≡ ok
  accepted lba remaining cache h inside size =
      let blocks = min remaining cache_read_blocks in
      (validate_read-ok_iff sectors lba blocks _ (omega arith)).1 (
        λ e. omega (arith, e),
        omega (arith, length-take (blocks * sector_bytes) cache),
        omega arith,
      )

  pub rounds-Loaded :
      (fuel : ℕ) (s : Source C) (lba remaining : ℕ) (cache : List ℕ)
      → Good s
      → remaining ≤ fuel
      → lba + remaining ≤ sectors
      → length cache ≡ remaining * sector_bytes
      → Loaded lba remaining cache (load_rounds fuel s lba remaining cache)
  rounds-Loaded fuel s lba zero cache good enough inside size =
      rw (done_round fuel s lba cache)
        (good, refl, λ e. length_zero cache (omega (arith, size)), λ r. refl)
  rounds-Loaded zero s lba (suc left) cache good enough inside size = absurd (omega arith)
  rounds-Loaded (suc fuel) s lba (suc left) cache good enough inside size =
      let remaining = suc left in
      let blocks = min remaining cache_read_blocks in
      let front = take (blocks * sector_bytes) cache in
      let got = read_buffer s lba blocks front in
      let some_left : 0 < remaining = omega arith in
      let (good', same, gives) = serves.reads s lba blocks front good in
      elim (Outcome-cases got.0) [
        | inr (code, read) ↦ rw (failed_round fuel s lba remaining cache code some_left read) (
          good',
          omega (
            arith,
            same,
            length-append got.1 (drop (blocks * sector_bytes) cache),
            length-take (blocks * sector_bytes) cache,
            length-drop (blocks * sector_bytes) cache,
          ),
          λ e. absurd (failed-ne-ok code e),
          λ r. absurd (
              failed-ne-ok code (
                sym read
                ∙ r s lba blocks front good (accepted lba remaining cache some_left inside size))),
        )
        | inl read ↦
            let next : u64 (lba + blocks) ≡ lba + blocks = omega (arith, serves.fits) in
            let rest =
              rounds-Loaded fuel got.2 (lba + blocks) (remaining - blocks)
                (drop (blocks * sector_bytes) cache) good' (omega arith) (omega arith)
                (omega (arith, length-drop (blocks * sector_bytes) cache)) in
            rw (read_round fuel s lba remaining cache some_left read, next)
              (combine lba remaining blocks cache got.1 _ (omega arith) size (gives read) rest)
      ]
