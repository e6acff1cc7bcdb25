-- ===== src/Common/Digits.antt =====
-- The operations on binary digits, `&` and `^` of the source, digit by digit.
use Prim.Native.Nat.{
  ℕ, zero, suc, ◌+◌, ◌*◌, ◌/◌, ◌%◌, ◌≤◌, ◌<◌, min, digits, differ, bit_and, bit_xor,
  bit_and-bitwise, bit_xor-bitwise,
}
use mathlib.Core.Path.{◌≡◌, refl, sym, ap, ap₂, ◌∙◌}
use mathlib.Core.Logic.{◌⊎◌, inl, inr}
use native.Mathlib.Omega.{arith}

-- Any count of digits that is large enough gives the same.
digits_enough :
    (z : ℕ → ℕ) (f : ℕ → ℕ → ℕ) (n m a b : ℕ) → a ≤ n → a ≤ m → digits z f n a b ≡ digits z f m a b
digits_enough z f zero zero a b h g = refl
digits_enough z f zero (suc m) zero b h g = refl
digits_enough z f zero (suc m) (suc a) b h g = absurd (omega arith)
digits_enough z f (suc n) zero zero b h g = refl
digits_enough z f (suc n) zero (suc a) b h g = absurd (omega arith)
digits_enough z f (suc n) (suc m) zero b h g = refl
digits_enough z f (suc n) (suc m) (suc a) b h g =
    ap (λ d. d * 2 + f (suc a % 2) (b % 2))
      (digits_enough z f n m (suc a / 2) (b / 2) (omega arith) (omega arith))

digits_halved :
    (z : ℕ → ℕ) (f : ℕ → ℕ → ℕ) (a b : ℕ)
    → z b ≡ z (b / 2) * 2 + f 0 (b % 2)
    → digits z f a a b ≡ digits z f (a / 2) (a / 2) (b / 2) * 2 + f (a % 2) (b % 2)
digits_halved z f zero b h = h
digits_halved z f (suc a) b h =
    ap (λ d. d * 2 + f (suc a % 2) (b % 2))
      (digits_enough z f a (suc a / 2) (suc a / 2) (b / 2) (omega arith) (omega arith))

pub bit_xor_halved : (a b : ℕ) → bit_xor a b ≡ bit_xor (a / 2) (b / 2) * 2 + differ (a % 2) (b % 2)
bit_xor_halved a b =
    bit_xor-bitwise a b
    ∙ digits_halved (λ k. k) differ a b (omega arith)
    ∙ ap (λ d. d * 2 + differ (a % 2) (b % 2)) (sym (bit_xor-bitwise (a / 2) (b / 2)))

pub bit_and_halved : (a b : ℕ) → bit_and a b ≡ bit_and (a / 2) (b / 2) * 2 + min (a % 2) (b % 2)
bit_and_halved a b =
    bit_and-bitwise a b
    ∙ digits_halved (λ k. 0) min a b (omega arith)
    ∙ ap (λ d. d * 2 + min (a % 2) (b % 2)) (sym (bit_and-bitwise (a / 2) (b / 2)))

pub bit_cases : (a : ℕ) → (a % 2 ≡ 0) ⊎ (a % 2 ≡ 1)
bit_cases a = ground arith

-- Zero is the neutral element.
pub zero-xor : (a : ℕ) → bit_xor 0 a ≡ a
zero-xor a = bit_xor-bitwise 0 a

differ_bit : (a b : ℕ) → differ (a % 2) (b % 2) < 2
differ_bit a b = elim (bit_cases a) [
  | inl p ↦ elim (bit_cases b) [ inl q ↦ rw (p, q) (omega arith) | inr q ↦ rw (p, q) (omega arith) ]
  | inr p ↦ elim (bit_cases b) [ inl q ↦ rw (p, q) (omega arith) | inr q ↦ rw (p, q) (omega arith) ]
]

pub half-xor : (a b : ℕ) → bit_xor a b / 2 ≡ bit_xor (a / 2) (b / 2)
half-xor a b = omega (arith, bit_xor_halved a b, differ_bit a b)

pub bit-xor : (a b : ℕ) → bit_xor a b % 2 ≡ differ (a % 2) (b % 2)
bit-xor a b = omega (arith, bit_xor_halved a b, differ_bit a b)

differ_bits :
    (a b c : ℕ) → differ (differ (a % 2) (b % 2)) (c % 2) ≡ differ (a % 2) (differ (b % 2) (c % 2))
differ_bits a b c = elim (bit_cases a) [
  | inl p ↦ elim (bit_cases b) [
    | inl q ↦ rw (p, q) refl
    | inr q ↦ elim (bit_cases c) [ inl r ↦ rw (p, q, r) refl | inr r ↦ rw (p, q, r) refl ]
  ]
  | inr p ↦ elim (bit_cases b) [
    | inl q ↦ elim (bit_cases c) [ inl r ↦ rw (p, q, r) refl | inr r ↦ rw (p, q, r) refl ]
    | inr q ↦ elim (bit_cases c) [ inl r ↦ rw (p, q, r) refl | inr r ↦ rw (p, q, r) refl ]
  ]
]

xor_assoc_upto : (n a b c : ℕ) → a ≤ n → bit_xor (bit_xor a b) c ≡ bit_xor a (bit_xor b c)
xor_assoc_upto n zero b c h = rw (zero-xor b, zero-xor (bit_xor b c)) refl
xor_assoc_upto zero (suc a) b c h = absurd (omega arith)
xor_assoc_upto (suc n) (suc a) b c h =
    let later = xor_assoc_upto n (suc a / 2) (b / 2) (c / 2) (omega arith) in
    bit_xor_halved (bit_xor (suc a) b) c
    ∙ rw (half-xor (suc a) b, bit-xor (suc a) b, later, differ_bits (suc a) b c)
        (sym (bit_xor_halved (suc a) (bit_xor b c) ∙ rw (half-xor b c, bit-xor b c) refl))

pub xor_assoc : (a b c : ℕ) → bit_xor (bit_xor a b) c ≡ bit_xor a (bit_xor b c)
xor_assoc a b c = xor_assoc_upto a a b c (omega arith)

and_nothing_upto : (n a : ℕ) → a ≤ n → bit_and a 0 ≡ 0
and_nothing_upto n zero h = bit_and-bitwise 0 0
and_nothing_upto zero (suc a) h = absurd (omega arith)
and_nothing_upto (suc n) (suc a) h =
    omega (arith, bit_and_halved (suc a) 0, and_nothing_upto n (suc a / 2) (omega arith))

and_nothing : (a : ℕ) → bit_and a 0 ≡ 0
and_nothing a = and_nothing_upto a a (omega arith)

differ_comm : (a b : ℕ) → differ (a % 2) (b % 2) ≡ differ (b % 2) (a % 2)
differ_comm a b = elim (bit_cases a) [
  | inl p ↦ elim (bit_cases b) [ inl q ↦ rw (p, q) refl | inr q ↦ rw (p, q) refl ]
  | inr p ↦ elim (bit_cases b) [ inl q ↦ rw (p, q) refl | inr q ↦ rw (p, q) refl ]
]

xor_comm_upto : (n a b : ℕ) → a ≤ n → b ≤ n → bit_xor a b ≡ bit_xor b a
xor_comm_upto zero zero zero h g = refl
xor_comm_upto zero zero (suc b) h g = absurd (omega arith)
xor_comm_upto zero (suc a) b h g = absurd (omega arith)
xor_comm_upto (suc n) a b h g =
    let halves = xor_comm_upto n (a / 2) (b / 2) (omega arith) (omega arith) in
    bit_xor_halved a b ∙ ap₂ (λ x y. x * 2 + y) halves (differ_comm a b) ∙ sym (bit_xor_halved b a)

pub xor_comm : (a b : ℕ) → bit_xor a b ≡ bit_xor b a
xor_comm a b = xor_comm_upto (a + b) a b (omega arith) (omega arith)

-- `& 0x0f` is the remainder by sixteen.
pub and_low_nibble : (a : ℕ) → bit_and a 15 ≡ a % 16
and_low_nibble a = omega (
  arith,
  bit_and_halved a 15,
  bit_and_halved (a / 2) 7,
  bit_and_halved (a / 2 / 2) 3,
  bit_and_halved (a / 2 / 2 / 2) 1,
  and_nothing (a / 2 / 2 / 2 / 2),
)
