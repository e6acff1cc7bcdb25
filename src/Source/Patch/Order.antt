-- ===== src/Source/Patch/Order.antt =====
-- What sorting and thinning out the patches keeps: the byte that each offset ends up with.
use gdox.Common.{
  ℕ, ◌+◌, ◌≤◌, ◌<◌, ◌≡◌, refl, ◌∙◌, some, List, [], ◌∷◌, ◌==◌, Option-cases, inl, inr,
  if◌then◌else◌, arith,
}
use gdox.Source.Patch.{
  BytePatch, IndexedPatch, Comparison, before, same, after, compare_indexed_patches, insert_patch,
  sort_patches, index_patches,
}

abbrev pub All {ℓ} : {A : Type ℓ} → (A → Type 0) → List A → Type 0
All P [] = Unit
All P (x ∷ xs) = P x × All P xs

-- The byte at an offset after the patches are applied in their order, where it was `d`.
abbrev pub patched_byte : ℕ → ℕ → List BytePatch → ℕ
patched_byte offset d [] = d
patched_byte offset d (p ∷ ps) = patched_byte offset (if p.offset == offset then p.value else d) ps

abbrev pub indexed_byte : ℕ → ℕ → List IndexedPatch → ℕ
indexed_byte offset d [] = d
indexed_byte offset d (x ∷ l) =
    indexed_byte offset (if x.patch.offset == offset then x.patch.value else d) l

-- Offsets rise strictly.
abbrev pub Ascending : List BytePatch → Type 0
Ascending [] = Unit
Ascending (p ∷ ps) = All (λ q. p.offset < q.offset) ps × Ascending ps

abbrev pub IsSorted : List IndexedPatch → Type 0
IsSorted [] = Unit
IsSorted (x ∷ l) = All (λ y. x.patch.offset ≤ y.patch.offset) l × IsSorted l

-- Inserting a patch declared before all of a list does not change what the list makes of a byte.
indexed_byte-insert :
    (offset d : ℕ) (x : IndexedPatch) (l : List IndexedPatch)
    → All (λ y. x.declaration_index < y.declaration_index) l
    → indexed_byte offset d (insert_patch x l) ≡ indexed_byte offset d (x ∷ l)
unfolding insert_patch compare_indexed_patches
indexed_byte-insert offset d x [] h = refl
indexed_byte-insert offset d x (y ∷ l) h = ground (
  arith,
  indexed_byte-insert offset (if y.patch.offset == offset then y.patch.value else d) x l h.1,
)

All-insert :
    (P : IndexedPatch → Type 0) (x : IndexedPatch) (l : List IndexedPatch)
    → P x
    → All P l
    → All P (insert_patch x l)
unfolding insert_patch
All-insert P x [] hx hl = (hx, tt)
All-insert P x (y ∷ l) hx hl = go (compare_indexed_patches x y) (All-insert P x l hx hl.1)
  where
    go :
        (c : Comparison)
        → All P (insert_patch x l)
        → All P (elim c [ after ↦ y ∷ insert_patch x l | _ ↦ x ∷ y ∷ l ])
    go after ih = (hl.0, ih)
    go before ih = (hx, hl)
    go same ih = (hx, hl)

pub All-map :
    {P Q : IndexedPatch → Type 0} (l : List IndexedPatch)
    → ((x : IndexedPatch) → P x → Q x)
    → All P l
    → All Q l
All-map [] f h = tt
All-map (x ∷ l) f h = (f x h.0, All-map l f h.1)

insert_patch-IsSorted :
    (x : IndexedPatch) (l : List IndexedPatch) → IsSorted l → IsSorted (insert_patch x l)
unfolding insert_patch compare_indexed_patches
insert_patch-IsSorted x [] h = (tt, tt)
insert_patch-IsSorted x (y ∷ l) h = ground (
  arith,
  insert_patch-IsSorted x l h.1,
  All-insert (λ z. y.patch.offset ≤ z.patch.offset) x l,
  All-map {P = λ z. y.patch.offset ≤ z.patch.offset} {Q = λ z. x.patch.offset ≤ z.patch.offset} l,
)

-- The list is sorted by offset, has the entries of the other, and makes the same of each byte.
pub record Sorts (l sorted : List IndexedPatch) : Type 0 where
  pub rising : IsSorted sorted
  pub bytes : (offset d : ℕ) → indexed_byte offset d sorted ≡ indexed_byte offset d l

abbrev pub DeclaredFrom : ℕ → List IndexedPatch → Type 0
DeclaredFrom index l = All (λ x. index ≤ x.declaration_index) l

-- Each entry is declared before those behind it.
abbrev pub IsDeclared : List IndexedPatch → Type 0
IsDeclared [] = Unit
IsDeclared (x ∷ l) = All (λ y. x.declaration_index < y.declaration_index) l × IsDeclared l

All-sort : (P : IndexedPatch → Type 0) (l : List IndexedPatch) → All P l → All P (sort_patches l)
unfolding sort_patches
All-sort P [] h = tt
All-sort P (x ∷ l) h = All-insert P x (sort_patches l) h.0 (All-sort P l h.1)

pub sort_patches-Sorts : (l : List IndexedPatch) → IsDeclared l → Sorts l (sort_patches l)
unfolding sort_patches
sort_patches-Sorts [] h = record { rising = tt; bytes = λ offset d. refl }
sort_patches-Sorts (x ∷ l) h =
    let below = sort_patches-Sorts l h.1 in
    record {
      rising = insert_patch-IsSorted x (sort_patches l) below.rising;
      bytes = λ offset d.
          indexed_byte-insert offset d x (sort_patches l)
            (All-sort (λ y. x.declaration_index < y.declaration_index) l h.0)
          ∙ below.bytes offset _;
    }

-- What the first loop makes of the patches that it accepts.
pub record Indexes (source_bytes index : ℕ) (ps : List BytePatch) (l : List IndexedPatch)
    : Type 0 where
  pub declared : IsDeclared l
  pub from : DeclaredFrom index l
  pub inside : All (λ p. p.offset < source_bytes) ps
  pub bytes : (offset d : ℕ) → indexed_byte offset d l ≡ patched_byte offset d ps

-- A call that accepts a patch has accepted those behind it.
index_patches-cons :
    (source_bytes index : ℕ) (p : BytePatch) (ps : List BytePatch) {l : List IndexedPatch}
    → index_patches source_bytes index (p ∷ ps) ≡ some l
    → (rest : List IndexedPatch) × (index_patches source_bytes (index + 1) ps ≡ some rest)
      × (l ≡ record { patch = p; declaration_index = index } ∷ rest)
      × (p.offset < source_bytes)
unfolding index_patches
index_patches-cons source_bytes index p ps h =
    elim (Option-cases (index_patches source_bytes (index + 1) ps)) [
      | inl e ↦ absurd (ground arith)
      | inr (rest, e) ↦ (rest, e, ground arith, ground arith)
    ]

pub index_patches-Indexes :
    (source_bytes index : ℕ) (ps : List BytePatch) {l : List IndexedPatch}
    → index_patches source_bytes index ps ≡ some l
    → Indexes source_bytes index ps l
unfolding index_patches
index_patches-Indexes source_bytes index [] {l} h =
    let empty : [] ≡ l = cc in
    rw (← empty) (record { declared = tt; from = tt; inside = tt; bytes = λ offset d. refl })
index_patches-Indexes source_bytes index (p ∷ ps) {l} h =
    let (rest, e, shape, inside) = index_patches-cons source_bytes index p ps h in
    let ih = index_patches-Indexes source_bytes (index + 1) ps e in
    rw shape (record {
      declared = (
        All-map {P = λ x. index + 1 ≤ x.declaration_index} rest (λ x later. omega arith) ih.from,
        ih.declared,
      );
      from = (
        omega arith,
        All-map {P = λ x. index + 1 ≤ x.declaration_index} rest (λ x later. omega arith) ih.from,
      );
      inside = (inside, ih.inside);
      bytes = λ offset d. ih.bytes offset _;
    })
