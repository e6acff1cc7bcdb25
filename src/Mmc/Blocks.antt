-- ===== src/Mmc/Blocks.antt =====
-- src/platform/mmc_commands.c: the commands that read the blocks of a disc, its capacity and its
-- structures.
use gdox.Common.{
  ℕ, ◌+◌, ◌*◌, ◌/◌, ◌%◌, ◌^◌, Bool, not, ◌&&◌, ◌||◌, Option, none, some, List, [], ◌∷◌, ◌++◌,
  length, get_or, ltb, ◌==◌, if◌then◌else◌, u64,
}
use gdox.Fault.{invalid_argument, protocol, transport, Outcome, ok, failed}
use gdox.Scsi.{DataIn, ScsiTransport, scsi_command_in}
use gdox.Mmc.{blank}

-- `read_be_u32`
unfoldable pub response_u32 : List ℕ → ℕ → ℕ
response_u32 bs i =
    get_or bs i 0 * 2 ^ 24
    + get_or bs (i + 1) 0 * 2 ^ 16
    + get_or bs (i + 2) 0 * 2 ^ 8
    + get_or bs (i + 3) 0

-- `put_be_u16`
unfoldable pub cdb_u16 : ℕ → List ℕ
cdb_u16 value = value / 2 ^ 8 % 256 ∷ value % 256 ∷ []

-- `put_be_u32`
unfoldable pub cdb_u32 : ℕ → List ℕ
cdb_u32 value = value / 2 ^ 24 % 256 ∷ value / 2 ^ 16 % 256 ∷ value / 2 ^ 8 % 256 ∷ value % 256 ∷ []

abbrev pub opcode_read_10 : ℕ
opcode_read_10 = 0x28

abbrev pub opcode_read_12 : ℕ
opcode_read_12 = 0xa8

-- A read of blocks: what the caller of `read_blocks` passes besides its buffer.
pub record BlockRead : Type 0 where
  pub opcode : ℕ
  pub lba : ℕ
  pub blocks : ℕ
  pub maximum_blocks : ℕ
  pub block_bytes : ℕ

-- The command block that `read_blocks` sends
unfoldable pub block_cdb : BlockRead → List ℕ
unfolding cdb_u16 cdb_u32
block_cdb r =
    if r.opcode == opcode_read_10
    then r.opcode ∷ 0 ∷ (cdb_u32 r.lba ++ (0 ∷ (cdb_u16 r.blocks ++ (0 ∷ []))))
    else r.opcode ∷ 0 ∷ (cdb_u32 r.lba ++ (cdb_u32 r.blocks ++ (0 ∷ 0 ∷ [])))

-- Whether `read_blocks` refuses a read into a buffer of this length
unfoldable pub refuses_blocks : BlockRead → ℕ → Bool
refuses_blocks r output_bytes =
    r.blocks == 0
    || ltb r.maximum_blocks r.blocks
    || r.block_bytes == 0
    || not (u64 (r.blocks * r.block_bytes) == output_bytes)
    || r.opcode == opcode_read_10 && ltb 0xffff r.blocks

module _ {C : Type 0} where
  -- `gdox_mmc_read_capacity_10` with places for the last block and the size of a block
  unfoldable pub read_capacity_10 : ScsiTransport C → ℕ → ℕ → ℕ → Outcome × ℕ × ℕ × ScsiTransport C
  read_capacity_10 t timeout_ms last_lba block_size =
      let (reply, t') = scsi_command_in t (0x25 ∷ blank 9) (blank 8) timeout_ms 0 in
      elim reply.result [
        | failed code ↦ (failed code, last_lba, block_size, t')
        | ok ↦
            if not (reply.transferred == 8)
            then (failed protocol, last_lba, block_size, t')
            else (ok, response_u32 reply.buffer 0, response_u32 reply.buffer 4, t')
      ]

  -- `gdox_mmc_read_dvd_structure` with a buffer and a place for the count
  unfoldable pub read_dvd_structure :
      ScsiTransport C → ℕ → List ℕ → ℕ → ℕ → DataIn × ScsiTransport C
  unfolding cdb_u16
  read_dvd_structure t format output timeout_ms transferred =
      if ltb 0xffff (length output)
      then (
        record { result = failed invalid_argument; buffer = output; transferred = transferred },
        t,
      )
      else scsi_command_in t
          (0xad ∷ 0 ∷ 0 ∷ 0 ∷ 0 ∷ 0 ∷ 0 ∷ format ∷ (cdb_u16 (length output) ++ (0 ∷ 0 ∷ []))) output
          timeout_ms transferred

  -- `read_blocks`, with the buffer that it leaves; `none` is a NULL buffer.
  unfoldable pub read_blocks :
      ScsiTransport C
      → BlockRead
      → Option (List ℕ)
      → ℕ
      → Outcome × Option (List ℕ) × ScsiTransport C
  read_blocks t r none timeout_ms = (failed invalid_argument, none, t)
  read_blocks t r (some output) timeout_ms =
      let (reply, t') = scsi_command_in t (block_cdb r) output timeout_ms 0 in
      if refuses_blocks r (length output)
      then (failed invalid_argument, some output, t)
      else elim reply.result [
        | failed code ↦ (failed code, some reply.buffer, t')
        | ok ↦
            if not (reply.transferred == length output)
            then (failed transport, some reply.buffer, t')
            else (ok, some reply.buffer, t')
      ]

  -- `gdox_mmc_read_10`
  unfoldable pub mmc_read_10 :
      ScsiTransport C
      → ℕ
      → ℕ
      → ℕ
      → ℕ
      → Option (List ℕ)
      → ℕ
      → Outcome × Option (List ℕ) × ScsiTransport C
  mmc_read_10 t lba blocks maximum_blocks block_bytes = read_blocks t (record {
    opcode = opcode_read_10;
    lba = lba;
    blocks = blocks;
    maximum_blocks = maximum_blocks;
    block_bytes = block_bytes;
  })

  -- `gdox_mmc_read_12`
  unfoldable pub mmc_read_12 :
      ScsiTransport C
      → ℕ
      → ℕ
      → ℕ
      → ℕ
      → Option (List ℕ)
      → ℕ
      → Outcome × Option (List ℕ) × ScsiTransport C
  mmc_read_12 t lba blocks maximum_blocks block_bytes = read_blocks t (record {
    opcode = opcode_read_12;
    lba = lba;
    blocks = blocks;
    maximum_blocks = maximum_blocks;
    block_bytes = block_bytes;
  })
