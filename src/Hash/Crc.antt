-- ===== src/Hash/Crc.antt =====
-- src/core/hash.c against src/core/security.c: the table of `crc32_update` and the loop over the
-- bits of `gdox_crc32` compute one checksum.
use Prim.Native.Nat.{bit_xor, differ}
use gdox.Common.{
  ℕ, ◌-◌, ◌++◌, some, length, u32_max, zero, suc, ◌<◌, Bool, true, false, Bool-cases, ◌/◌, ◌%◌, ◌≡◌,
  refl, sym, ap, ap₂, ◌∙◌, inl, inr, List, [], ◌∷◌, get_or, ◌==◌, ==_iff, if◌then◌else◌, arith,
}
use gdox.Common.Digits.{zero-xor, half-xor, bit-xor, xor_assoc, xor_comm, and_low_nibble}
use gdox.Security.Inspect.{crc_bit, crc_byte, crc_loop, crc32}
use gdox.Hash.Stream.{crc32_update-append}
use gdox.Hash.{crc32_buffer, crc32_table, crc32_nibble, crc32_byte, crc32_update}

abbrev polynomial : ℕ
polynomial = 0xedb8_8320

-- `crc_bit`, with the polynomial in front
bit_step : ℕ → ℕ
bit_step crc = if crc % 2 == 1 then bit_xor polynomial (crc / 2) else crc / 2

bit_step-crc_bit : (crc : ℕ) → bit_step crc ≡ crc_bit crc
unfolding bit_step
bit_step-crc_bit crc = ap (λ k. if crc % 2 == 1 then k else crc / 2) (xor_comm polynomial (crc / 2))

-- What is mixed into the rest of the register after one more bit of it has left, where `k` was
-- mixed into it before.
next : ℕ → ℕ → ℕ
next k bit = if differ (k % 2) bit == 1 then bit_xor polynomial (k / 2) else k / 2

step_bit :
    (k crc bit : ℕ)
    → bit_xor k crc % 2 ≡ bit
    → bit_step (bit_xor k crc)
      ≡ bit_xor (if bit == 1 then bit_xor polynomial (k / 2) else k / 2) (crc / 2)
unfolding bit_step
step_bit k crc bit e =
    rw (e, half-xor k crc)
      (elim (Bool-cases (bit == 1)) [
        | inl h ↦ rw h (sym (xor_assoc polynomial (k / 2) (crc / 2)))
        | inr h ↦ rw h refl
      ])

step-next : (k crc : ℕ) → bit_step (bit_xor k crc) ≡ bit_xor (next k (crc % 2)) (crc / 2)
step-next k crc = unfold next in step_bit k crc (differ (k % 2) (crc % 2)) (bit-xor k crc)

-- The mix of four bits, lowest first
abbrev four : ℕ → ℕ
four m = next (next (next (next 0 (m % 2)) (m / 2 % 2)) (m / 4 % 2)) (m / 8 % 2)

four_steps :
    (crc : ℕ) → bit_step (bit_step (bit_step (bit_step crc))) ≡ bit_xor (four crc) (crc / 16)
four_steps crc =
    let k1 = next 0 (crc % 2) in
    let k2 = next k1 (crc / 2 % 2) in
    let k3 = next k2 (crc / 4 % 2) in
    let first : bit_step crc ≡ bit_xor k1 (crc / 2) =
      ap bit_step (sym (zero-xor crc)) ∙ step-next 0 crc in
    let second : crc / 2 / 2 ≡ crc / 4 = omega arith in
    let third : crc / 4 / 2 ≡ crc / 8 = omega arith in
    let fourth : crc / 8 / 2 ≡ crc / 16 = omega arith in
    rw
      (
        first,
        step-next k1 (crc / 2),
        second,
        step-next k2 (crc / 4),
        third,
        step-next k3 (crc / 8),
        fourth,
      )
      refl

all_below : ℕ → (ℕ → Bool) → Bool
all_below zero p = true
all_below (suc n) p = let rest = all_below n p in if p n then rest else false

all_below_lem : (n : ℕ) (p : ℕ → Bool) (x : ℕ) → all_below n p ≡ true → x < n → p x ≡ true
unfolding all_below
all_below_lem zero p x h lt = absurd (omega arith)
all_below_lem (suc n) p x h lt = ground (arith, all_below_lem n p x)

table_checked : all_below 16 (λ m. four m == get_or crc32_table m 0) ≡ true
unfolding all_below next
table_checked = refl

table-four : (m : ℕ) → m < 16 → four m ≡ get_or crc32_table m 0
table-four m h =
    (==_iff (four m) (get_or crc32_table m 0)).0
      (all_below_lem 16 (λ m. four m == get_or crc32_table m 0) m table_checked h)

four-low : (crc : ℕ) → four crc ≡ four (crc % 16)
four-low crc =
    let b0 : crc % 2 ≡ crc % 16 % 2 = omega arith in
    let b1 : crc / 2 % 2 ≡ crc % 16 / 2 % 2 = omega arith in
    let b2 : crc / 4 % 2 ≡ crc % 16 / 4 % 2 = omega arith in
    let b3 : crc / 8 % 2 ≡ crc % 16 / 8 % 2 = omega arith in
    ap₂ next (ap₂ next (ap₂ next (ap (next 0) b0) b1) b2) b3

-- A look-up in the table is four steps of the register.
nibble-steps : (crc : ℕ) → crc32_nibble crc ≡ bit_step (bit_step (bit_step (bit_step crc)))
unfolding crc32_nibble
nibble-steps crc =
    ap (λ m. bit_xor (get_or crc32_table m 0) (crc / 16)) (and_low_nibble crc)
    ∙ ap (λ k. bit_xor k (crc / 16)) (sym (four-low crc ∙ table-four (crc % 16) (omega arith)))
    ∙ sym (four_steps crc)

four_bits : ℕ → ℕ
four_bits crc = crc_bit (crc_bit (crc_bit (crc_bit crc)))

nibble-bits : (crc : ℕ) → crc32_nibble crc ≡ four_bits crc
unfolding four_bits
nibble-bits crc =
    rw
      (
        nibble-steps crc,
        bit_step-crc_bit crc,
        bit_step-crc_bit (crc_bit crc),
        bit_step-crc_bit (crc_bit (crc_bit crc)),
        bit_step-crc_bit (crc_bit (crc_bit (crc_bit crc))),
      )
      refl

byte-bits : (crc b : ℕ) → crc32_byte crc b ≡ crc_byte crc b
unfolding crc32_byte four_bits
byte-bits crc b =
    nibble-bits (crc32_nibble (bit_xor crc b)) ∙ ap four_bits (nibble-bits (bit_xor crc b))

update-loop : (crc : ℕ) (bytes : List ℕ) → crc32_update crc bytes ≡ crc_loop crc bytes
unfolding crc32_update
update-loop crc [] = refl
update-loop crc (b ∷ bytes) =
    update-loop (crc32_byte crc b) bytes ∙ ap (λ r. crc_loop r bytes) (byte-bits crc b)

-- For all bytes `gdox_crc32_buffer`, which looks up four bits in a table, gives the checksum that
-- `gdox_crc32` of the security sectors computes bit by bit; and it is the same whether the bytes
-- come at once or in two parts.
pub crc32_buffer-crc32 :
    (xs ys : List ℕ)
    → (crc32_buffer (some (xs ++ ys)) (length (xs ++ ys)) ≡ crc32 (xs ++ ys))
      × (crc32_update u32_max (xs ++ ys) ≡ crc32_update (crc32_update u32_max xs) ys)
unfolding crc32_buffer crc32
crc32_buffer-crc32 xs ys =
    (ap (λ r. u32_max - r) (update-loop u32_max (xs ++ ys)), crc32_update-append u32_max xs ys)
