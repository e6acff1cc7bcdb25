-- ===== src/Common/Bytes.antt =====
-- An image is the content of a medium, a byte for each byte offset; a slice of it is what a read
-- of it returns.
use Prim.Native.Nat.{ℕ, zero, suc, ◌+◌, ◌<◌, ◌≤◌, ◌-◌}
use mathlib.Core.Path.{◌≡◌, refl, ap, ap₂, ◌∙◌}
use mathlib.Core.List.{List, [], ◌∷◌, ◌++◌}
use native.Mathlib.Omega.{arith}
use gdox.Common.Lists.{length, get_or, take, drop}

abbrev pub Image : Type 0
Image = ℕ → ℕ

-- The `n` bytes of the image from offset `start` on.
abbrev pub slice : Image → ℕ → ℕ → List ℕ
slice img start zero = []
slice img start (suc n) = img start ∷ slice img (start + 1) n

pub length-slice : (img : Image) (start n : ℕ) → length (slice img start n) ≡ n
length-slice img start zero = refl
length-slice img start (suc n) = ap suc (length-slice img (start + 1) n)

pub get_or-slice :
    (img : Image) (start n i : ℕ) → i < n → get_or (slice img start n) i 0 ≡ img (start + i)
get_or-slice img start zero i h = absurd (omega arith)
get_or-slice img start (suc n) zero h = ap img (omega arith)
get_or-slice img start (suc n) (suc i) h =
    rw (get_or-slice img (start + 1) n i (omega arith)) (ap img (omega arith))

-- Two images that agree on a range have the same slice there.
pub slice_ext :
    (f g : Image) (a b n : ℕ)
    → ((i : ℕ) → i < n → f (a + i) ≡ g (b + i))
    → slice f a n ≡ slice g b n
slice_ext f g a b zero h = refl
slice_ext f g a b (suc n) h =
    ap₂ ◌∷◌ (rw (ap f head_left, ap g head_right) at (h 0 (omega arith))) (
      slice_ext f g (a + 1) (b + 1) n
        (λ i hi. rw (ap f (next a i), ap g (next b i)) at (h (suc i) (omega arith))))
  where
    head_left : a + 0 ≡ a
    head_left = omega arith

    head_right : b + 0 ≡ b
    head_right = omega arith

    next : (c i : ℕ) → c + suc i ≡ c + 1 + i
    next c i = omega arith

-- A list is the slice of the image that it spells.
pub eq_slice :
    (xs : List ℕ) (img : Image) (start n : ℕ)
    → length xs ≡ n
    → ((i : ℕ) → i < n → get_or xs i 0 ≡ img (start + i))
    → xs ≡ slice img start n
eq_slice [] img start zero e h = refl
eq_slice [] img start (suc n) e h = absurd (omega arith)
eq_slice (x ∷ xs) img start zero e h = absurd (omega arith)
eq_slice (x ∷ xs) img start (suc n) e h = ap₂ ◌∷◌ (h 0 (omega arith) ∙ ap img start_zero) (
    eq_slice xs img (start + 1) n (omega arith) (λ i hi. h (suc i) (omega arith) ∙ ap img (next i)))
  where
    start_zero : start + 0 ≡ start
    start_zero = omega arith

    next : (i : ℕ) → start + suc i ≡ start + 1 + i
    next i = omega arith

pub take-slice :
    (img : Image) (start n k : ℕ) → k ≤ n → take k (slice img start n) ≡ slice img start k
take-slice img start n zero h = refl
take-slice img start zero (suc k) h = absurd (omega arith)
take-slice img start (suc n) (suc k) h =
    ap (λ t. img start ∷ t) (take-slice img (start + 1) n k (omega arith))

pub drop-slice :
    (img : Image) (start n k : ℕ) → drop k (slice img start n) ≡ slice img (start + k) (n - k)
drop-slice img start n zero = rw (zero_shift, zero_less)
  where
    zero_shift : start + 0 ≡ start
    zero_shift = omega arith

    zero_less : n - 0 ≡ n
    zero_less = omega arith
drop-slice img start zero (suc k) = ap (slice img (start + suc k)) shorter
  where
    shorter : 0 ≡ 0 - suc k
    shorter = omega arith
drop-slice img start (suc n) (suc k) =
    drop-slice img (start + 1) n k ∙ ap₂ (slice img) regroup shorter
  where
    regroup : start + 1 + k ≡ start + suc k
    regroup = omega arith

    shorter : n - k ≡ suc n - suc k
    shorter = omega arith

pub slice-append :
    (img : Image) (start n m : ℕ)
    → slice img start n ++ slice img (start + n) m ≡ slice img start (n + m)
slice-append img start zero m = ap₂ (slice img) start_zero m_only
  where
    start_zero : start + 0 ≡ start
    start_zero = omega arith

    m_only : m ≡ 0 + m
    m_only = omega arith
slice-append img start (suc n) m =
    ap (λ t. img start ∷ t)
      (ap (λ s. slice img (start + 1) n ++ slice img s m) regroup
        ∙ slice-append img (start + 1) n m)
    ∙ ap (slice img start) count
  where
    regroup : start + suc n ≡ start + 1 + n
    regroup = omega arith

    count : suc (n + m) ≡ suc n + m
    count = omega arith

-- A list is the slice of itself.
pub slice_of_list : (xs : List ℕ) → xs ≡ slice (λ i. get_or xs i 0) 0 (length xs)
slice_of_list xs =
    eq_slice xs (λ i. get_or xs i 0) 0 (length xs) refl (λ i h. ap (λ j. get_or xs j 0) (shift i))
  where
    shift : (i : ℕ) → i ≡ 0 + i
    shift i = omega arith
