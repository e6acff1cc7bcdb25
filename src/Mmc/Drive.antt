-- ===== src/Mmc/Drive.antt =====
-- src/platform/mmc_commands.c: the commands that read blocks, against a drive that reads a command
-- block as the MMC standard lays it out.
use gdox.Common.{
  ℕ, zero, suc, ◌+◌, ◌-◌, ◌≤◌, ◌*◌, ◌^◌, ◌<◌, ◌≡◌, refl, sym, ap, ◌∙◌, ◌⊎◌, false, some, List,
  length, get_or, ◌==◌, if◌then◌else◌, u64_mod, u32_mod, arith,
}
use gdox.Common.{Image, slice}
use gdox.Fault.{ok}
use gdox.Scsi.{ScsiTransport, scsi_command_in}
use gdox.Mmc.Blocks.{
  BlockRead, opcode_read_10, opcode_read_12, response_u32, cdb_u16, cdb_u32, block_cdb,
  refuses_blocks, read_blocks,
}

-- The first block that a READ(10) or READ(12) asks for
unfoldable pub asked_lba : List ℕ → ℕ
asked_lba cdb = response_u32 cdb 2

-- The count of blocks: 16 bits of a READ(10), 32 bits of a READ(12)
unfoldable pub asked_blocks : List ℕ → ℕ
asked_blocks cdb =
    if get_or cdb 0 0 == opcode_read_10
    then get_or cdb 7 0 * 2 ^ 8 + get_or cdb 8 0
    else response_u32 cdb 6

-- The blocks of the image that a command block asks for, as bytes
abbrev pub asked_bytes : Image → ℕ → List ℕ → List ℕ
asked_bytes img block_bytes cdb =
    slice img (asked_lba cdb * block_bytes) (asked_blocks cdb * block_bytes)

-- A drive with this image: a read whose buffer holds the blocks it asks for and that transfers them
-- all leaves them in the buffer.
pub record DriveReads {C : Type 0} (t : ScsiTransport C) (img : Image) (block_bytes : ℕ)
    : Type 0 where
  pub reads :
      (cdb buffer : List ℕ) (timeout_ms : ℕ)
      → ((get_or cdb 0 0 ≡ opcode_read_10) ⊎ (get_or cdb 0 0 ≡ opcode_read_12))
      → length buffer ≡ asked_blocks cdb * block_bytes
      → (scsi_command_in t cdb buffer timeout_ms 0).0.result ≡ ok
      → (scsi_command_in t cdb buffer timeout_ms 0).0.transferred ≡ length buffer
      → (scsi_command_in t cdb buffer timeout_ms 0).0.buffer ≡ asked_bytes img block_bytes cdb

-- What the caller of a read has to keep to
pub record InWords (r : BlockRead) : Type 0 where
  pub opcode : (r.opcode ≡ opcode_read_10) ⊎ (r.opcode ≡ opcode_read_12)
  pub lba : r.lba < u32_mod
  pub blocks : r.blocks < u32_mod
  pub block_bytes : r.block_bytes < u32_mod

block_cdb-opcode : (r : BlockRead) → get_or (block_cdb r) 0 0 ≡ r.opcode
unfolding block_cdb
block_cdb-opcode r = ground arith

block_cdb-lba : (r : BlockRead) → r.lba < u32_mod → asked_lba (block_cdb r) ≡ r.lba
unfolding block_cdb asked_lba response_u32 cdb_u32
block_cdb-lba r h = ground arith

block_cdb-blocks :
    (r : BlockRead) (output_bytes : ℕ)
    → InWords r
    → refuses_blocks r output_bytes ≡ false
    → asked_blocks (block_cdb r) ≡ r.blocks
unfolding block_cdb asked_blocks response_u32 cdb_u32 cdb_u16 refuses_blocks
block_cdb-blocks r n w h = ground arith

-- A read that is not refused has a buffer of exactly its blocks.
accepted_bytes :
    (r : BlockRead) (output_bytes : ℕ)
    → r.blocks * r.block_bytes < u64_mod
    → refuses_blocks r output_bytes ≡ false
    → output_bytes ≡ r.blocks * r.block_bytes
unfolding refuses_blocks
accepted_bytes r n w h = ground arith

product_grows : (a b : ℕ) → b < u32_mod → a * b ≤ a * (u32_mod - 1)
product_grows zero b h = omega arith
product_grows (suc a) b h = omega (arith, product_grows a b h)

product_in_word : (r : BlockRead) → InWords r → r.blocks * r.block_bytes < u64_mod
product_in_word r w = omega (arith, w.blocks, product_grows r.blocks r.block_bytes w.block_bytes)

module _ {C : Type 0} where
  -- What a read that succeeded has found
  record Succeeds (t : ScsiTransport C) (r : BlockRead) (output : List ℕ) (timeout_ms : ℕ)
      : Type 0 where
    accepted : refuses_blocks r (length output) ≡ false
    result : (scsi_command_in t (block_cdb r) output timeout_ms 0).0.result ≡ ok
    all : (scsi_command_in t (block_cdb r) output timeout_ms 0).0.transferred ≡ length output
    left :
        (read_blocks t r (some output) timeout_ms).1
        ≡ some (scsi_command_in t (block_cdb r) output timeout_ms 0).0.buffer

  read_blocks-Succeeds :
      (t : ScsiTransport C) (r : BlockRead) (output : List ℕ) (timeout_ms : ℕ)
      → (read_blocks t r (some output) timeout_ms).0 ≡ ok
      → Succeeds t r output timeout_ms
  unfolding read_blocks
  read_blocks-Succeeds t r output ms h = record {
    accepted = ground arith;
    result = ground arith;
    all = ground arith;
    left = ground arith;
  }

  -- A READ(10) or READ(12) that succeeds on a drive with an image leaves exactly the blocks of
  -- the image that its caller asked for in the buffer, if the drive reads blocks of that size and
  -- the arguments fit their 32-bit words.
  pub read_blocks-Reads :
      (t : ScsiTransport C) (img : Image) (r : BlockRead) (output : List ℕ) (timeout_ms : ℕ)
      → DriveReads t img r.block_bytes
      → InWords r
      → (read_blocks t r (some output) timeout_ms).0 ≡ ok
      → (read_blocks t r (some output) timeout_ms).1
        ≡ some (slice img (r.lba * r.block_bytes) (r.blocks * r.block_bytes))
  read_blocks-Reads t img r output ms drive w h =
      let s = read_blocks-Succeeds t r output ms h in
      let cdb = block_cdb r in
      let bytes = accepted_bytes r (length output) (product_in_word r w) s.accepted in
      let lba = block_cdb-lba r w.lba in
      let blocks = block_cdb-blocks r (length output) w s.accepted in
      let opcode = rw (sym (block_cdb-opcode r)) at w.opcode in
      let read = drive.reads cdb output ms opcode (rw blocks bytes) s.result s.all in
      s.left ∙ ap some (read ∙ rw (lba, blocks) refl)
