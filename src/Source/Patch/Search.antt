-- ===== src/Source/Patch/Search.antt =====
-- The binary search of the patched source, on patches whose offsets rise.
use gdox.Common.{
  ℕ, zero, suc, ◌+◌, ◌-◌, ◌/◌, ◌≤◌, ◌<◌, ◌≡◌, List, [], ◌∷◌, length, take, drop, get_or, ltb, ◌==◌,
  Bool-cases, inl, inr, arith,
}
use gdox.Source.Patch.{BytePatch, no_patch, lower_bound_loop, lower_bound_patch}
use gdox.Source.Patch.Order.{All, Ascending}

-- `r` splits the patches into those with a smaller offset and the others.
abbrev pub SplitsAt : List BytePatch → ℕ → ℕ → Type 0
SplitsAt ps offset r =
    All (λ p. p.offset < offset) (take r ps) × All (λ p. offset ≤ p.offset) (drop r ps)

All-above :
    (offset : ℕ) (p : BytePatch) (ps : List BytePatch)
    → offset ≤ p.offset
    → All (λ q. p.offset < q.offset) ps
    → All (λ q. offset ≤ q.offset) ps
All-above offset p [] h rising = tt
All-above offset p (q ∷ ps) h rising = (omega arith, All-above offset p ps h rising.1)

head-lt :
    (n i : ℕ) (ps : List BytePatch)
    → All (λ q. n < q.offset) ps
    → i < length ps
    → n < (get_or ps i no_patch).offset
head-lt n i [] h lt = absurd (omega arith)
head-lt n zero (p ∷ ps) h lt = h.0
head-lt n (suc i) (p ∷ ps) h lt = head-lt n i ps h.1 (omega arith)

-- A small entry makes all up to it small, and one that is not makes all from it on not small.
take-below :
    (ps : List BytePatch) (offset i : ℕ)
    → Ascending ps
    → i < length ps
    → (get_or ps i no_patch).offset < offset
    → All (λ p. p.offset < offset) (take (suc i) ps)
take-below [] offset i rising lt h = absurd (omega arith)
take-below (p ∷ ps) offset zero rising lt h = (h, tt)
take-below (p ∷ ps) offset (suc i) rising lt h = (
  omega (arith, head-lt p.offset i ps rising.0 (omega arith)),
  take-below ps offset i rising.1 (omega arith) h,
)

drop-above :
    (ps : List BytePatch) (offset i : ℕ)
    → Ascending ps
    → i < length ps
    → offset ≤ (get_or ps i no_patch).offset
    → All (λ p. offset ≤ p.offset) (drop i ps)
drop-above [] offset i rising lt h = absurd (omega arith)
drop-above (p ∷ ps) offset zero rising lt h = (h, All-above offset p ps h rising.0)
drop-above (p ∷ ps) offset (suc i) rising lt h = drop-above ps offset i rising.1 (omega arith) h

All-drop-length : (P : BytePatch → Type 0) (ps : List BytePatch) → All P (drop (length ps) ps)
All-drop-length P [] = tt
All-drop-length P (p ∷ ps) = All-drop-length P ps

-- The loop ends at the split point, if it starts with small entries before `first`, the others
-- from `first + remaining` on, and enough fuel.
lower_bound_loop-SplitsAt :
    (fuel : ℕ) (ps : List BytePatch) (offset first remaining : ℕ)
    → Ascending ps
    → remaining ≤ fuel
    → first + remaining ≤ length ps
    → All (λ p. p.offset < offset) (take first ps)
    → All (λ p. offset ≤ p.offset) (drop (first + remaining) ps)
    → SplitsAt ps offset (lower_bound_loop fuel ps offset first remaining)
unfolding lower_bound_loop
lower_bound_loop-SplitsAt zero ps offset first remaining rising enough inside below above =
    let e : first + remaining ≡ first = omega arith in (below, rw e at above)
lower_bound_loop-SplitsAt (suc fuel) ps offset first remaining rising enough inside below above =
    let middle = first + remaining / 2 in
    elim (Bool-cases (remaining == 0)) [
      | inl done ↦
          let e : first + remaining ≡ first = ground arith in
          rw (done, lower_bound_loop) (below, rw e at above)
      | inr more ↦ elim (Bool-cases (ltb (get_or ps middle no_patch).offset offset)) [
        | inl small ↦
            let e : suc middle ≡ middle + 1 = omega arith in
            let whole : first + remaining ≡ middle + 1 + (remaining - (remaining / 2 + 1)) =
              ground arith in
            rw (more, small, lower_bound_loop)
              (lower_bound_loop-SplitsAt fuel ps offset (middle + 1)
                (remaining - (remaining / 2 + 1)) rising (omega arith) (ground arith)
                (rw e at (take-below ps offset middle rising (ground arith) (ground arith)))
                (rw whole at above))
        | inr large ↦
            rw (more, large, lower_bound_loop)
              (lower_bound_loop-SplitsAt fuel ps offset first (remaining / 2) rising (ground arith)
                (omega arith) below
                (drop-above ps offset middle rising (ground arith) (ground arith)))
      ]
    ]

-- The search on rising patches returns the split point at the offset.
pub lower_bound_patch-SplitsAt :
    (ps : List BytePatch) (offset : ℕ)
    → Ascending ps
    → SplitsAt ps offset (lower_bound_patch ps offset)
unfolding lower_bound_patch
lower_bound_patch-SplitsAt ps offset rising =
    lower_bound_loop-SplitsAt (length ps) ps offset 0 (length ps) rising (omega arith) (omega arith)
      tt (rw (add_zero) (All-drop-length _ ps))
  where
    add_zero : 0 + length ps ≡ length ps
    add_zero = omega arith
