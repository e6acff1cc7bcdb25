-- ===== src/Hash/Files.antt =====
-- src/core/hash.c: the hash of a whole file.
pub mod Whole
use gdox.Common.{
  ℕ, zero, suc, ◌+◌, ◌-◌, Bool, true, false, not, Option, none, some, List, [], ◌∷◌, length, ◌⊎◌,
  inl, inr, ltb, if◌then◌else◌, min, u64,
}
use gdox.Fault.{ErrorCode, invalid_argument, internal, io, Outcome, ok, failed, error_is_set}
use gdox.Hash.{
  Hashes, HashBackend, HashStream, hash_stream_create, hash_stream_update, hash_stream_finish,
}

-- core/ports/preservation_io.h, as the file is read: `open_read` gives the file and its length,
-- `read` the bytes that it wrote into a buffer of the given capacity. A call that succeeds leaves
-- its error slot clear.
pub record FilePort (F : Type 0) : Type 0 where
  pub open_read : List ℕ → ErrorCode ⊎ (F × ℕ)
  pub read : F → ℕ → Outcome × List ℕ × F
  pub close : F → Outcome

-- `GDOX_HASH_FILE_BUFFER_BYTES`
abbrev pub file_buffer_bytes : ℕ
file_buffer_bytes = 1_048_576

-- `if (!gdox_error_is_set(error))` in the loop
abbrev pub or_io : ErrorCode → ErrorCode
or_io code = if error_is_set code then code else io

-- What a caller of `gdox_hash_file` passes; `none` is a NULL pointer.
pub record HashFile : Type 0 where
  pub path : Option (List ℕ)
  pub output : Option Hashes
  pub length_output : Option ℕ

-- Whether the buffer and the hash stream are allocated.
pub record HashMemory : Type 0 where
  pub buffer : Bool
  pub stream : Bool

module _ {B F : Type 0} (port : HashBackend B) (files : FilePort F) where
  -- The `while`. Each round but the last reads at least one byte, so that the length of the file is
  -- enough fuel.
  pub hash_rounds : ℕ → ℕ → ℕ → F → HashStream B → Outcome × HashStream B × F
  hash_rounds zero file_length completed file s = (ok, s, file)
  hash_rounds (suc fuel) file_length completed file s =
      let (result, received, file') =
        files.read file (min (file_length - completed) file_buffer_bytes) in
      let (updated, s') = hash_stream_update port s received in
      elim (ltb completed file_length) [
        | false ↦ (ok, s, file)
        | true ↦ elim result [
          | failed code ↦ (failed (or_io code), s, file')
          | ok ↦ elim received [
            | [] ↦ (failed io, s, file')
            | b ∷ bytes ↦ elim updated [
              | failed code ↦ (failed (or_io code), s', file')
              | ok ↦ hash_rounds fuel file_length (u64 (completed + length (b ∷ bytes))) file' s'
            ]
          ]
        ]
      ]

  -- From the open file to `cleanup`
  unfoldable pub hash_opened :
      HashMemory → F → ℕ → Hashes → Option ℕ → Outcome × Hashes × Option ℕ × F
  hash_opened memory file file_length output length_output =
      if not memory.buffer
      then (failed internal, output, length_output, file)
      else elim (hash_stream_create port memory.stream) [
        | inl code ↦ (failed code, output, length_output, file)
        | inr s ↦
            let (read, s', file') = hash_rounds file_length file_length 0 file s in
            elim read [
              | failed code ↦ (failed code, output, length_output, file')
              | ok ↦
                  let (finished, output', s'') = hash_stream_finish port s' output in
                  elim finished [
                    | failed code ↦ (failed code, output', length_output, file')
                    | ok ↦ (
                      ok,
                      output',
                      elim length_output [ none ↦ none | some old ↦ some file_length ],
                      file',
                    )
                  ]
            ]
      ]

  -- `cleanup`: a failure to close the file counts when nothing failed before it.
  unfoldable pub hash_closed : Outcome × Hashes × Option ℕ × F → Outcome × Option Hashes × Option ℕ
  hash_closed (ok, output, length_output, file) = (files.close file, some output, length_output)
  hash_closed (failed code, output, length_output, file) = (failed code, some output, length_output)

  -- `gdox_hash_file` on a path and hashes that are there
  unfoldable pub hash_path :
      HashMemory → List ℕ → Hashes → Option ℕ → Outcome × Option Hashes × Option ℕ
  hash_path memory [] output length_output = (failed invalid_argument, some output, length_output)
  hash_path memory (c ∷ l) output length_output = elim (files.open_read (c ∷ l)) [
    | inl code ↦ (failed code, some output, length_output)
    | inr (file, file_length) ↦
        hash_closed (hash_opened memory file file_length output length_output)
  ]

  -- `gdox_hash_file`, with the hashes and the length that it leaves
  unfoldable pub hash_file : HashMemory → HashFile → Outcome × Option Hashes × Option ℕ
  hash_file memory call = elim call.path [
    | none ↦ (failed invalid_argument, call.output, call.length_output)
    | some path ↦ elim call.output [
      | none ↦ (failed invalid_argument, none, call.length_output)
      | some output ↦ hash_path memory path output call.length_output
    ]
  ]
