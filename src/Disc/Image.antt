-- ===== src/Disc/Image.antt =====
-- What a client of a disc relies on.
use gdox.Common.{ℕ, ◌-◌, ◌≡◌, ◌≢◌, ◌<◌, true, List, ◌++◌, length, drop, min, Image, slice, u64_mod}
use gdox.Fault.{Outcome, ok}
use gdox.Disc.{Disc}
use gdox.Disc.Dispatch.{disc_is_valid, disc_length, disc_read_buffer}

-- How many bytes a read of a disc of `size` bytes gives: those up to the end of the disc.
abbrev pub readable_bytes : ℕ → ℕ → List ℕ → ℕ
readable_bytes size offset output = min (length output) (size - offset)

-- What a read leaves: a disc that is still good, a buffer of the size it had, and, if the read
-- succeeded, the bytes from the offset on, up to the end of the disc, before what the buffer held;
-- `*read_bytes` is their number, and 0 if the read failed.
pub record ReadsBytes {H : Type 0} (Good : H → Type 0) (size : ℕ) (img : Image) (offset : ℕ)
    (output : List ℕ) (out : Outcome × List ℕ × ℕ × H) : Type 0 where
  pub keeps : Good out.3
  pub same_length : length out.1 ≡ length output
  pub gives :
      out.0 ≡ ok
      → out.1
        ≡ slice img offset (readable_bytes size offset output)
          ++ drop (readable_bytes size offset output) output
  pub counts : out.0 ≡ ok → out.2 ≡ readable_bytes size offset output
  pub fails : out.0 ≢ ok → out.2 ≡ 0

-- A family of discs that serves an image of `size` bytes.
pub record ServesBytes {C : Type 0} (Good : Disc C → Type 0) (size : ℕ) (img : Image) : Type 0 where
  pub fits : size < u64_mod
  pub valid : (d : Disc C) → Good d → disc_is_valid d ≡ true
  pub count : (d : Disc C) → Good d → disc_length d ≡ size
  pub reads :
      (d : Disc C) (offset : ℕ) (output : List ℕ)
      → Good d
      → ReadsBytes Good size img offset output (disc_read_buffer d offset output)
