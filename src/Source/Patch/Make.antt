-- ===== src/Source/Patch/Make.antt =====
-- src/core/source.c: the constructor of the patched source.
pub mod Build
use gdox.Common.{
  ℕ, ◌*◌, ◌/◌, Bool, not, ◌&&◌, ◌||◌, Option, none, some, List, [], ◌⊎◌, inl, inr, take, is_some,
  ltb, ◌==◌, if◌then◌else◌, u64, u64_max,
}
use mathlib.Core.Option.{get_or}
use gdox.Fault.{
  ErrorCode, invalid_argument, out_of_bounds, internal, invalid_source, Outcome, ok, failed,
}
use gdox.Source.{sector_bytes, Source}
use gdox.Source.Dispatch.{closed_source, handle, source_is_valid, source_sector_count}
use gdox.Source.Patch.{
  BytePatch, PatchContext, patch_ops, index_patches, sort_patches, unique_patches,
}

-- `sizeof(gdox_indexed_patch)`
abbrev pub indexed_patch_bytes : ℕ
indexed_patch_bytes = 24

-- Whether the allocations of `indexed`, of the context and of its patches succeed.
pub record Memory : Type 0 where
  pub indexed : Bool
  pub context : Bool
  pub patches : Bool

-- What a caller passes: `none` is a NULL pointer, and `same_handle` says that the two pointers to
-- handles are equal. With no patches the output takes over the inner source itself.
pub record MakePatched (C : Type 0) : Type 0 where
  pub inner : Option (Source C)
  pub patches : Option (List BytePatch)
  pub patch_count : ℕ
  pub output : Option (Source C ⊎ Source (PatchContext C))
  pub same_handle : Bool

-- The patches sorted and made unique, or the code of the error that stops the call first.
pub prepare_patches : Memory → ℕ → List BytePatch → ErrorCode ⊎ List BytePatch
prepare_patches memory source_bytes patches =
    if not memory.indexed then inl internal else elim (index_patches source_bytes 0 patches) [
      | none ↦ inl out_of_bounds
      | some indexed ↦
          if not memory.context || not memory.patches
          then inl internal
          else inr (unique_patches (sort_patches indexed))
    ]

module _ {C : Type 0} where
  pub output_is_valid : Source C ⊎ Source (PatchContext C) → Bool
  output_is_valid (inl s) = source_is_valid s
  output_is_valid (inr s) = source_is_valid s

  -- The call once its handles are known to be fit.
  pub patch_source :
      Memory → Source C → List BytePatch → ℕ → ErrorCode ⊎ Source C ⊎ Source (PatchContext C)
  patch_source memory inner patches patch_count =
      if patch_count == 0
      then inr (inl inner)
      else if ltb (u64_max / indexed_patch_bytes) patch_count
      then inl invalid_argument
      else if ltb (u64_max / sector_bytes) (source_sector_count inner)
      then inl invalid_source
      else elim (prepare_patches memory (u64 (source_sector_count inner * sector_bytes))
          (take patch_count patches)) [
            | inl code ↦ inl code
            | inr unique ↦ inr (inr (handle (record { inner = inner; patches = unique }) patch_ops))
          ]

  -- `gdox_source_make_patched`, with the handles behind the two pointers as it leaves them.
  unfoldable pub make_patched :
      Memory
      → MakePatched C
      → Outcome × Option (Source C) × Option (Source C ⊎ Source (PatchContext C))
  make_patched memory call = elim call.inner [
    | none ↦ (failed invalid_argument, call.inner, call.output)
    | some inner ↦ elim call.output [
      | none ↦ (failed invalid_argument, call.inner, call.output)
      | some output ↦
          if call.same_handle
            || not (source_is_valid inner)
            || output_is_valid output
            || not (call.patch_count == 0) && not (is_some call.patches)
          then (failed invalid_argument, call.inner, call.output)
          else elim (patch_source memory inner (get_or call.patches []) call.patch_count) [
            | inl code ↦ (failed code, call.inner, call.output)
            | inr patched ↦ (ok, some closed_source, some patched)
          ]
    ]
  ]
