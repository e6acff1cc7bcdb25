-- ===== src/Source/Patch.antt =====
-- src/core/source.c: the patched source, which overwrites single bytes of what another source
-- reads. The patches are sorted by offset, and of those with one offset the last declared stays.
pub mod Make
pub mod Order
pub mod Unique
pub mod Search
pub mod Write
pub mod Serve
pub mod Forward
use gdox.Common.{
  ℕ, suc, zero, ◌+◌, ◌-◌, ◌*◌, ◌/◌, Bool, true, false, Option, none, some, List, [], ◌∷◌, length,
  drop, set, get_or, ltb, leb, ◌==◌, if◌then◌else◌, u64, u64_mod,
}
use gdox.Fault.{Outcome, ok, failed}
use gdox.Source.{sector_bytes, PhysicalReadStats, MediaObservation, DiscEvidence, SourceOps, Source}
use gdox.Source.Dispatch.{
  source_sector_count, read_buffer, source_media_present, source_observe_media, source_evidence,
  source_physical_read_stats, source_abort, source_prepare_close, source_close,
}

-- `gdox_byte_patch`
pub record BytePatch : Type 0 where
  pub offset : ℕ
  pub value : ℕ

abbrev pub no_patch : BytePatch
no_patch = record { offset = 0; value = 0 }

-- `gdox_indexed_patch`
pub record IndexedPatch : Type 0 where
  pub patch : BytePatch
  pub declaration_index : ℕ

-- `gdox_patch_context`; `patch_count` is the length of the list.
pub record PatchContext (C : Type 0) : Type 0 where
  pub inner : Source C
  pub patches : List BytePatch

pub data Comparison : Type 0 where
  before same after : Comparison

pub compare_indexed_patches : IndexedPatch → IndexedPatch → Comparison
compare_indexed_patches left right =
    if ltb left.patch.offset right.patch.offset
    then before
    else if ltb right.patch.offset left.patch.offset
    then after
    else if ltb left.declaration_index right.declaration_index
    then before
    else if ltb right.declaration_index left.declaration_index
    then after
    else same

-- `qsort` by that comparison. No two entries compare as the same, so that the sorted order is
-- the only one and every sort gives it.
pub insert_patch : IndexedPatch → List IndexedPatch → List IndexedPatch
insert_patch x [] = x ∷ []
insert_patch x (y ∷ l) = elim (compare_indexed_patches x y) [
  | after ↦ y ∷ insert_patch x l
  | _ ↦ x ∷ y ∷ l
]

pub sort_patches : List IndexedPatch → List IndexedPatch
sort_patches [] = []
sort_patches (x ∷ l) = insert_patch x (sort_patches l)

-- The loop that fills `indexed`; `none` is the patch outside the source.
unfoldable pub index_patches : ℕ → ℕ → List BytePatch → Option (List IndexedPatch)
index_patches source_bytes index [] = some []
index_patches source_bytes index (p ∷ ps) =
    if leb source_bytes p.offset then none else elim (index_patches source_bytes (index + 1) ps) [
      | none ↦ none
      | some rest ↦ some (record { patch = p; declaration_index = index } ∷ rest)
    ]

-- The loop that keeps an entry unless the next one has its offset, and the copy of the patches.
pub unique_patches : List IndexedPatch → List BytePatch
unique_patches [] = []
unique_patches (x ∷ []) = x.patch ∷ []
unique_patches (x ∷ y ∷ l) =
    let rest = unique_patches (y ∷ l) in
    if x.patch.offset == y.patch.offset then rest else x.patch ∷ rest

-- The `while` of `lower_bound_patch`. The fuel is at least `remaining`, which each round lowers.
pub lower_bound_loop : ℕ → List BytePatch → ℕ → ℕ → ℕ → ℕ
lower_bound_loop zero patches offset first remaining = first
lower_bound_loop (suc fuel) patches offset first remaining =
    let step = remaining / 2 in
    let middle = first + step in
    elim (remaining == 0) [
      | true ↦ first
      | false ↦ elim (ltb (get_or patches middle no_patch).offset offset) [
        | true ↦ lower_bound_loop fuel patches offset (middle + 1) (remaining - (step + 1))
        | false ↦ lower_bound_loop fuel patches offset first step
      ]
    ]

pub lower_bound_patch : List BytePatch → ℕ → ℕ
lower_bound_patch patches offset =
    lower_bound_loop (length patches) patches offset 0 (length patches)

-- The loop of `patch_read` over the patches from `index` on.
pub write_patches : List BytePatch → ℕ → ℕ → List ℕ → List ℕ
write_patches [] start end output = output
write_patches (p ∷ ps) start end output =
    let rest = write_patches ps start end (set output (u64 (p.offset + u64_mod - start)) p.value) in
    if ltb p.offset end then rest else output

module _ {C : Type 0} where
  pub patch_sector_count : PatchContext C → ℕ
  patch_sector_count p = source_sector_count p.inner

  pub patch_read : PatchContext C → ℕ → ℕ → List ℕ → Outcome × List ℕ × PatchContext C
  patch_read p lba blocks output =
      let start = u64 (lba * sector_bytes) in
      let end = u64 (start + length output) in
      let (result, buffer, inner) = read_buffer p.inner lba blocks output in
      elim result [
        | failed code ↦ (failed code, buffer, record p { inner = inner })
        | ok ↦ (
          ok,
          write_patches (drop (lower_bound_patch p.patches start) p.patches) start end buffer,
          record p { inner = inner },
        )
      ]

  pub patch_media_present : PatchContext C → Bool
  patch_media_present p = source_media_present p.inner

  pub patch_observe_media : PatchContext C → MediaObservation → MediaObservation
  patch_observe_media p output = (source_observe_media p.inner).1

  pub patch_evidence : PatchContext C → DiscEvidence → Bool × DiscEvidence
  patch_evidence p output = source_evidence p.inner

  pub patch_physical_read_stats : PatchContext C → PhysicalReadStats → Bool × PhysicalReadStats
  patch_physical_read_stats p output = source_physical_read_stats p.inner

  pub patch_close : PatchContext C → Outcome
  patch_close p = (source_close p.inner).0

  pub patch_prepare_close : PatchContext C → Outcome × PatchContext C
  patch_prepare_close p =
      let (result, inner) = source_prepare_close p.inner in (result, record p { inner = inner })

  pub patch_abort : PatchContext C → PatchContext C
  patch_abort p = record p { inner = source_abort p.inner }

  abbrev pub patch_ops : SourceOps (PatchContext C)
  patch_ops = record {
    sector_count = some patch_sector_count;
    read = some patch_read;
    media_present = some patch_media_present;
    close = some patch_close;
    evidence = some patch_evidence;
    physical_read_stats = some patch_physical_read_stats;
    abort = some patch_abort;
    prepare_close = some patch_prepare_close;
    observe_media = some patch_observe_media;
  }
