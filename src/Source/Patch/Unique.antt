-- ===== src/Source/Patch/Unique.antt =====
-- The patches that the constructor of the patched source keeps.
use gdox.Common.{
  ℕ, ◌≤◌, ◌<◌, ◌≡◌, refl, ◌≢◌, ap, ◌∙◌, some, List, [], ◌∷◌, ◌==◌, Bool-cases, inl, inr, arith,
}
use gdox.Source.Patch.{BytePatch, IndexedPatch, index_patches, sort_patches, unique_patches}
use gdox.Source.Patch.Order.{
  All, All-map, Ascending, IsSorted, patched_byte, indexed_byte, sort_patches-Sorts,
  index_patches-Indexes,
}

-- The result of the sort and the copy: offsets rise strictly, and each byte ends up the same.
record Thins (l : List IndexedPatch) (ps : List BytePatch) : Type 0 where
  rising : Ascending ps
  bytes : (offset d : ℕ) → patched_byte offset d ps ≡ indexed_byte offset d l

All-unique :
    (n : ℕ) (l : List IndexedPatch)
    → All (λ x. n < x.patch.offset) l
    → All (λ p. n < p.offset) (unique_patches l)
unfolding unique_patches
All-unique n [] h = tt
All-unique n (x ∷ []) h = h
All-unique n (x ∷ y ∷ l) h = ground (arith, All-unique n (y ∷ l) h.1)

All-below :
    (x y : IndexedPatch) (l : List IndexedPatch)
    → x.patch.offset ≤ y.patch.offset
    → x.patch.offset ≢ y.patch.offset
    → All (λ z. y.patch.offset ≤ z.patch.offset) l
    → All (λ z. x.patch.offset < z.patch.offset) (y ∷ l)
All-below x y l le ne h =
    (omega arith, All-map {P = λ z. y.patch.offset ≤ z.patch.offset} l (λ z hz. omega arith) h)

unique_patches-Thins : (l : List IndexedPatch) → IsSorted l → Thins l (unique_patches l)
unfolding unique_patches
unique_patches-Thins [] h = record { rising = tt; bytes = λ offset d. refl }
unique_patches-Thins (x ∷ []) h = record { rising = (tt, tt); bytes = λ offset d. refl }
unique_patches-Thins (x ∷ y ∷ l) h =
    let ih = unique_patches-Thins (y ∷ l) h.1 in
    elim (Bool-cases (x.patch.offset == y.patch.offset)) [
      | inl e ↦ rw e (record {
        rising = ih.rising;
        bytes = λ offset d. ih.bytes offset d ∙ ap (λ t. indexed_byte offset t l) (ground arith);
      })
      | inr e ↦ rw e (record {
        rising = (
          All-unique x.patch.offset (y ∷ l) (All-below x y l h.0.0 (ground arith) h.1.0),
          ih.rising,
        );
        bytes = λ offset d. ih.bytes offset _;
      })
    ]

-- When the first loop accepts the declared patches, the patches that the constructor keeps rise
-- strictly, and do to each byte what the declared patches do in their order.
pub prepared_patches :
    (source_bytes : ℕ) (ps : List BytePatch) {l : List IndexedPatch}
    → index_patches source_bytes 0 ps ≡ some l
    → Ascending (unique_patches (sort_patches l))
      × ((offset d : ℕ)
          → patched_byte offset d (unique_patches (sort_patches l)) ≡ patched_byte offset d ps)
prepared_patches source_bytes ps {l} h =
    let indexes = index_patches-Indexes source_bytes 0 ps h in
    let sorts = sort_patches-Sorts l indexes.declared in
    let thins = unique_patches-Thins (sort_patches l) sorts.rising in
    (thins.rising, λ offset d. thins.bytes offset d ∙ sorts.bytes offset d ∙ indexes.bytes offset d)
