-- ===== src/Source/Patch/Write.antt =====
-- The loop that writes the patches into the buffer of a read.
use gdox.Common.{
  ℕ, zero, suc, ◌+◌, ◌-◌, ◌≤◌, ◌<◌, ◌≡◌, refl, sym, ap, ◌∙◌, List, [], ◌∷◌, length, take, drop, set,
  get_or, length-set, get_or-set_self, get_or-set_ne, ltb, ◌==◌, if◌then◌else◌, Bool-cases, inl,
  inr, u64, u64_mod, arith,
}
use gdox.Source.Patch.{BytePatch, write_patches}
use gdox.Source.Patch.Order.{All, Ascending, patched_byte}

-- Patches elsewhere leave a byte alone.
patched_byte-beyond :
    (offset d : ℕ) (ps : List BytePatch)
    → All (λ p. offset < p.offset) ps
    → patched_byte offset d ps ≡ d
patched_byte-beyond offset d [] h = refl
patched_byte-beyond offset d (p ∷ ps) h = ground (arith, patched_byte-beyond offset d ps h.1)

All-beyond :
    (offset : ℕ) (p : BytePatch) (ps : List BytePatch)
    → offset < p.offset
    → All (λ q. p.offset < q.offset) ps
    → All (λ q. offset < q.offset) ps
All-beyond offset p [] h rising = tt
All-beyond offset p (q ∷ ps) h rising = (omega arith, All-beyond offset p ps h rising.1)

-- Patches below the range that is read may be left out.
pub patched_byte-drop :
    (r start offset d : ℕ) (ps : List BytePatch)
    → All (λ p. p.offset < start) (take r ps)
    → start ≤ offset
    → patched_byte offset d ps ≡ patched_byte offset d (drop r ps)
patched_byte-drop zero start offset d ps h le = refl
patched_byte-drop (suc r) start offset d [] h le = refl
patched_byte-drop (suc r) start offset d (p ∷ ps) h le =
    ground (arith, patched_byte-drop r start offset d ps h.1 le)

pub drop-Ascending : (r : ℕ) (ps : List BytePatch) → Ascending ps → Ascending (drop r ps)
drop-Ascending zero ps h = h
drop-Ascending (suc r) [] h = h
drop-Ascending (suc r) (p ∷ ps) h = drop-Ascending r ps h.1

pub length-write_patches :
    (ps : List BytePatch) (start end : ℕ) (output : List ℕ)
    → length (write_patches ps start end output) ≡ length output
unfolding write_patches
length-write_patches [] start end output = refl
length-write_patches (p ∷ ps) start end output =
    let k = u64 (p.offset + u64_mod - start) in
    ground
      (arith, length-write_patches ps start end (set output k p.value), length-set output k p.value)

get_or-write_one :
    (output : List ℕ) (start offset i v : ℕ)
    → start ≤ offset
    → offset < start + length output
    → start + length output < u64_mod + 1
    → i < length output
    → get_or (set output (u64 (offset + u64_mod - start)) v) i 0
      ≡ (if offset == start + i then v else get_or output i 0)
get_or-write_one output start offset i v le lt fits inside =
    elim (Bool-cases (offset == start + i)) [
      | inl here ↦
          let k : u64 (offset + u64_mod - start) ≡ i = ground arith in
          rw (here, k) (get_or-set_self output i v 0 inside)
      | inr elsewhere ↦
          rw elsewhere (get_or-set_ne output (u64 (offset + u64_mod - start)) i v 0 (ground arith))
    ]

-- On rising patches from `start` on, each byte of the buffer becomes what the patches make of it.
pub get_or-write_patches :
    (ps : List BytePatch) (start end : ℕ) (output : List ℕ) (i : ℕ)
    → Ascending ps
    → All (λ p. start ≤ p.offset) ps
    → end ≡ start + length output
    → end < u64_mod + 1
    → i < length output
    → get_or (write_patches ps start end output) i 0
      ≡ patched_byte (start + i) (get_or output i 0) ps
unfolding write_patches
get_or-write_patches [] start end output i rising from e fits inside = refl
get_or-write_patches (p ∷ ps) start end output i rising from e fits inside =
    let k = u64 (p.offset + u64_mod - start) in
    let same = length-set output k p.value in
    elim (Bool-cases (ltb p.offset end)) [
      | inl small ↦ rw small (
          get_or-write_patches ps start end (set output k p.value) i rising.1 from.1 (omega arith)
            fits (omega arith)
          ∙ ap (λ t. patched_byte (start + i) t ps)
              (get_or-write_one output start p.offset i p.value from.0 (ground arith) (omega arith)
                inside))
      | inr large ↦ rw large (
          sym (
            patched_byte-beyond (start + i) (get_or output i 0) (p ∷ ps)
              (ground arith, All-beyond (start + i) p ps (ground arith) rising.0)))
    ]
