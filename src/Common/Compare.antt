-- ===== src/Common/Compare.antt =====
-- `memcmp` of the C library, as the source uses it to ask whether two ranges are equal.
use Prim.Native.Nat.{ℕ}
use mathlib.Core.Path.{◌≡◌, refl, ap, ◌∙◌}
use mathlib.Core.Bool.{Bool, true, false, ◌&&◌}
use mathlib.Core.List.{List, [], ◌∷◌}
use native.Mathlib.Omega.{arith}
use gdox.Common.Tests.{◌==◌}

-- `memcmp` of two ranges that are as long as each other
unfoldable pub same_bytes : List ℕ → List ℕ → Bool
same_bytes [] [] = true
same_bytes [] (y ∷ ys) = false
same_bytes (x ∷ xs) [] = false
same_bytes (x ∷ xs) (y ∷ ys) = let rest = same_bytes xs ys in x == y && rest

pub same_bytes-≡ : (xs ys : List ℕ) → same_bytes xs ys ≡ true → xs ≡ ys
unfolding same_bytes
same_bytes-≡ [] [] h = refl
same_bytes-≡ [] (y ∷ ys) h = absurd (ground (arith, h))
same_bytes-≡ (x ∷ xs) [] h = absurd (ground (arith, h))
same_bytes-≡ (x ∷ xs) (y ∷ ys) h =
    let first : x ≡ y = ground (arith, h) in
    let later = same_bytes-≡ xs ys (ground (arith, h)) in
    ap (λ k. k ∷ xs) first ∙ ap (λ t. y ∷ t) later

pub same_bytes_refl : (xs : List ℕ) → same_bytes xs xs ≡ true
unfolding same_bytes
same_bytes_refl [] = refl
same_bytes_refl (x ∷ xs) = let later = same_bytes_refl xs in ground (arith, later)
