-- ===== src/Common/Word.antt =====
-- The machine words of the source: uint16_t, uint32_t, and uint64_t, which size_t is too on every
-- 64-bit host that the project builds for.
use Prim.Native.Nat.{ℕ, ◌%◌, ◌^◌}

abbrev pub u64_mod : ℕ
u64_mod = 2 ^ 64

abbrev pub u32_mod : ℕ
u32_mod = 2 ^ 32

abbrev pub u16_mod : ℕ
u16_mod = 2 ^ 16

abbrev pub u64_max : ℕ
u64_max = 0xffff_ffff_ffff_ffff

abbrev pub u32_max : ℕ
u32_max = 0xffff_ffff

-- Unsigned 64-bit arithmetic wraps.
abbrev pub u64 : ℕ → ℕ
u64 x = x % u64_mod

abbrev pub u32 : ℕ → ℕ
u32 x = x % u32_mod
