-- ===== src/Common/Text.antt =====
-- Texts of the C library: the bytes up to the NUL.
use Prim.Native.Nat.{ℕ, ◌≤◌}
use mathlib.Core.Bool.{Bool}
use mathlib.Core.List.{List, [], ◌∷◌}
use native.Mathlib.Omega.{arith}
use gdox.Common.Lists.{length}
use gdox.Common.Tests.{if◌then◌else◌}

-- What a scan up to the first byte for which `stop` holds passes over, and what is left.
unfoldable pub scan_until : (ℕ → Bool) → List ℕ → List ℕ × List ℕ
scan_until stop [] = ([], [])
scan_until stop (c ∷ l) =
    let (passed, rest) = scan_until stop l in if stop c then ([], c ∷ l) else (c ∷ passed, rest)

pub scan_until-le : (stop : ℕ → Bool) (l : List ℕ) → length (scan_until stop l).1 ≤ length l
unfolding scan_until
scan_until-le stop [] = omega arith
scan_until-le stop (c ∷ l) = let later = scan_until-le stop l in ground arith
