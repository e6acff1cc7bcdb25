-- ===== src/Source/Patch/Make/Build.antt =====
-- What the constructor of the patched source builds, and what it leaves alone when it fails.
use mathlib.Core.Path.{fun_ext}
use gdox.Common.{
  ℕ, ◌+◌, ◌*◌, ◌/◌, ◌≤◌, ◌<◌, ◌≡◌, refl, ◌≢◌, true, false, some, List, [], ◌∷◌, inl, inr, length,
  take-length, Option-cases, is_some, Image, u64, u64_max, arith,
}
use gdox.Fault.{ErrorCode, ok, failed}
use gdox.Source.{sector_bytes, Source}
use gdox.Source.Dispatch.{closed_source, opened, source_is_valid, source_sector_count}
use gdox.Source.Image.{Serves}
use gdox.Source.Patch.{BytePatch, index_patches, sort_patches, unique_patches}
use gdox.Source.Patch.Make.{
  indexed_patch_bytes, Memory, MakePatched, output_is_valid, prepare_patches, patch_source,
  make_patched,
}
use gdox.Source.Patch.Order.{All, Ascending}
use gdox.Source.Patch.Unique.{prepared_patches}
use gdox.Source.Patch.Serve.{patched_image, patch_on, PatchOf, patch-Serves}

-- The first loop accepts patches that all lie in the source.
index_patches_total :
    (source_bytes index : ℕ) (ps : List BytePatch)
    → All (λ p. p.offset < source_bytes) ps
    → is_some (index_patches source_bytes index ps) ≡ true
unfolding index_patches
index_patches_total source_bytes index [] h = refl
index_patches_total source_bytes index (p ∷ ps) h =
    ground (arith, index_patches_total source_bytes (index + 1) ps h.1)

abbrev pub enough : Memory
enough = record { indexed = true; context = true; patches = true }

-- The call that patches `inner` with all of `ps`, into an empty handle.
abbrev pub patching : {C : Type 0} → Source C → List BytePatch → MakePatched C
patching inner ps = record {
  inner = some inner;
  patches = some ps;
  patch_count = length ps;
  output = some (inl closed_source);
  same_handle = false;
}

-- A call that fails leaves both handles as they were.
pub make_patched-atomic :
    {C : Type 0} (memory : Memory) (call : MakePatched C) {code : ErrorCode}
    → (make_patched memory call).0 ≡ failed code
    → ((make_patched memory call).1 ≡ call.inner) × ((make_patched memory call).2 ≡ call.output)
unfolding make_patched
make_patched-atomic memory call h = (ground arith, ground arith)

module _ {C : Type 0} (Good : Source C → Type 0) (sectors : ℕ) (img : Image)
    (serves : Serves Good sectors img) (inner : Source C) (good : Good inner) where
  patch_source_lem :
      (ps : List BytePatch)
      → ps ≢ []
      → length ps ≤ u64_max / indexed_patch_bytes
      → sectors ≤ u64_max / sector_bytes
      → All (λ p. p.offset < sectors * sector_bytes) ps
      → (unique : List BytePatch) × (patch_source enough inner ps (length ps)
          ≡ inr (inr (patch_on inner unique)))
        × Ascending unique
        × (patched_image img unique ≡ patched_image img ps)
  unfolding patch_source prepare_patches
  patch_source_lem ps some_patch few small inside =
      let counted = serves.count inner good in
      let bytes : u64 (source_sector_count inner * sector_bytes) ≡ sectors * sector_bytes =
        rw counted (omega arith) in
      elim (Option-cases (index_patches (sectors * sector_bytes) 0 ps)) [
        | inl e ↦ absurd (ground (arith, index_patches_total (sectors * sector_bytes) 0 ps inside))
        | inr (l, e) ↦
            let (rising, same) = prepared_patches (sectors * sector_bytes) ps e in
            (
              unique_patches (sort_patches l),
              rw (bytes, take-length ps, e) (ground arith),
              rising,
              fun_ext (λ i. same i (img i)),
            )
      ]

  -- With the memory at hand, patches that all lie in the source, at least one and no more than the
  -- allocation allows, and a source whose byte length does not wrap, the constructor succeeds: it
  -- empties the caller's handle, and the output serves the image with the patches applied in
  -- the order of their declaration.
  pub make_patched-Serves :
      (ps : List BytePatch)
      → ps ≢ []
      → length ps ≤ u64_max / indexed_patch_bytes
      → sectors ≤ u64_max / sector_bytes
      → All (λ p. p.offset < sectors * sector_bytes) ps
      → (unique : List BytePatch) × (make_patched enough (patching inner ps)
          ≡ (ok, some closed_source, some (inr (patch_on inner unique))))
        × Serves (PatchOf Good unique) sectors (patched_image img ps)
  unfolding make_patched output_is_valid source_is_valid opened
  make_patched-Serves ps some_patch few small inside =
      let (unique, made, rising, same) = patch_source_lem ps some_patch few small inside in
      (
        unique,
        ground (arith, serves.valid inner good, made),
        rw same at (patch-Serves Good sectors img unique rising small serves),
      )
