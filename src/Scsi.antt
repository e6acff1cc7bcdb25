-- ===== src/Scsi.antt =====
-- src/platform/scsi_transport.h and scsi_transport.c: the handle on a device that takes SCSI
-- commands. A context stands for all that is reachable from it, the device included; a NULL handle
-- takes the branches of a closed one. The name of a command, which only messages use, is left out.
use gdox.Common.{
  ℕ, Bool, true, false, ◌||◌, not, Option, none, some, List, length, ltb, ◌==◌, if◌then◌else◌,
}
use gdox.Fault.{invalid_argument, protocol, unsupported, Outcome, ok, failed}

-- What a command that reads data leaves: the buffer of its caller and the count of bytes.
pub record DataIn : Type 0 where
  pub result : Outcome
  pub buffer : List ℕ
  pub transferred : ℕ

-- What `last_sense` leaves
pub record SenseIn : Type 0 where
  pub known : Bool
  pub buffer : List ℕ
  pub sense_bytes : ℕ

-- `gdox_scsi_transport_ops`: a member that is `none` is NULL. A command takes its block, its data
-- and its timeout; its count, which the caller sets to 0, is what it leaves of it. `close` consumes
-- its context.
pub record ScsiOps (C : Type 0) : Type 0 where
  pub command_in : Option (C → List ℕ → List ℕ → ℕ → DataIn × C)
  pub command_out : Option (C → List ℕ → List ℕ → ℕ → Outcome × ℕ × C)
  pub command_none : Option (C → List ℕ → ℕ → Outcome × C)
  pub reset : Option (C → Outcome × C)
  pub close : Option (C → Outcome)
  pub prepare_close : Option (C → Outcome × C)
  pub last_sense : Option (C → List ℕ → SenseIn)
  pub device_present : Option (C → Bool → Outcome × Bool)

-- `gdox_scsi_transport`
pub record ScsiTransport (C : Type 0) : Type 0 where
  pub context : Option C
  pub ops : Option (ScsiOps C)

abbrev pub closed_transport : {C : Type 0} → ScsiTransport C
closed_transport = record { context = none; ops = none }

-- The members that an open transport has to have
pub record Required (C : Type 0) : Type 0 where
  pub context : C
  pub table : ScsiOps C
  pub command_in : C → List ℕ → List ℕ → ℕ → DataIn × C
  pub command_out : C → List ℕ → List ℕ → ℕ → Outcome × ℕ × C
  pub command_none : C → List ℕ → ℕ → Outcome × C
  pub reset : C → Outcome × C
  pub close : C → Outcome

-- A NULL on the way is no transport at all.
infixl 5 ◌>>=◌
abbrev ◌>>=◌ : {A B : Type 0} → Option A → (A → Option B) → Option B
◌>>=◌ none f = none
◌>>=◌ (some a) f = f a

module _ {C : Type 0} where
  -- The tests of `gdox_scsi_transport_is_valid`, with what they find
  unfoldable pub opened_transport : ScsiTransport C → Option (Required C)
  opened_transport t = do
    context ← t.context
    table ← t.ops
    command_in ← table.command_in
    command_out ← table.command_out
    command_none ← table.command_none
    reset ← table.reset
    close ← table.close
    some (record {
      context = context;
      table = table;
      command_in = command_in;
      command_out = command_out;
      command_none = command_none;
      reset = reset;
      close = close;
    })

  -- `gdox_scsi_transport_is_valid`
  unfoldable pub transport_is_valid : ScsiTransport C → Bool
  transport_is_valid t = elim (opened_transport t) [ none ↦ false | some o ↦ true ]

  abbrev pub keep_context : ScsiTransport C → C → ScsiTransport C
  keep_context t c = record t { context = some c }

  -- The tests of `validate_cdb`
  unfoldable pub validate_cdb : ScsiTransport C → List ℕ → Outcome
  validate_cdb t cdb =
      if not (transport_is_valid t)
      then failed invalid_argument
      else if length cdb == 0 || ltb 16 (length cdb)
      then failed protocol
      else ok

  -- `gdox_scsi_command_in` with a buffer and a place for the count
  unfoldable pub scsi_command_in :
      ScsiTransport C → List ℕ → List ℕ → ℕ → ℕ → DataIn × ScsiTransport C
  scsi_command_in t cdb buffer timeout_ms transferred = elim (validate_cdb t cdb) [
    | failed code ↦ (record { result = failed code; buffer = buffer; transferred = transferred }, t)
    | ok ↦
        if length buffer == 0
        then (
          record { result = failed invalid_argument; buffer = buffer; transferred = transferred },
          t,
        )
        else elim (opened_transport t) [
          | none ↦ (
            record { result = failed invalid_argument; buffer = buffer; transferred = transferred },
            t,
          )
          | some o ↦
              let (reply, c) = o.command_in o.context cdb buffer timeout_ms in
              (reply, keep_context t c)
        ]
  ]

  -- `gdox_scsi_command_out` with data and a place for the count
  unfoldable pub scsi_command_out :
      ScsiTransport C → List ℕ → List ℕ → ℕ → ℕ → Outcome × ℕ × ScsiTransport C
  scsi_command_out t cdb input timeout_ms transferred = elim (validate_cdb t cdb) [
    | failed code ↦ (failed code, transferred, t)
    | ok ↦
        if length input == 0
        then (failed invalid_argument, transferred, t)
        else elim (opened_transport t) [
          | none ↦ (failed invalid_argument, transferred, t)
          | some o ↦
              let (result, count, c) = o.command_out o.context cdb input timeout_ms in
              (result, count, keep_context t c)
        ]
  ]

  -- `gdox_scsi_command_none`
  unfoldable pub scsi_command_none : ScsiTransport C → List ℕ → ℕ → Outcome × ScsiTransport C
  scsi_command_none t cdb timeout_ms = elim (validate_cdb t cdb) [
    | failed code ↦ (failed code, t)
    | ok ↦ elim (opened_transport t) [
      | none ↦ (failed invalid_argument, t)
      | some o ↦
          let (result, c) = o.command_none o.context cdb timeout_ms in (result, keep_context t c)
    ]
  ]

  -- `gdox_scsi_transport_reset`
  unfoldable pub transport_reset : ScsiTransport C → Outcome × ScsiTransport C
  transport_reset t = elim (opened_transport t) [
    | none ↦ (failed invalid_argument, t)
    | some o ↦ let (result, c) = o.reset o.context in (result, keep_context t c)
  ]

  -- `gdox_scsi_transport_last_sense` with a buffer and a place for the count
  unfoldable pub transport_last_sense : ScsiTransport C → List ℕ → SenseIn
  transport_last_sense t buffer =
      let nothing : SenseIn = record { known = false; buffer = buffer; sense_bytes = 0 } in
      elim (opened_transport t) [
        | none ↦ nothing
        | some o ↦ if length buffer == 0 then nothing else elim o.table.last_sense [
          | none ↦ nothing
          | some last_sense ↦ last_sense o.context buffer
        ]
      ]

  -- `gdox_scsi_transport_device_present`; `none` is a NULL output.
  unfoldable pub transport_device_present : ScsiTransport C → Option Bool → Outcome × Option Bool
  transport_device_present t output = elim (opened_transport t) [
    | none ↦ (failed invalid_argument, output)
    | some o ↦ elim output [
      | none ↦ (failed invalid_argument, none)
      | some present ↦ elim o.table.device_present [
        | none ↦ (failed unsupported, some present)
        | some device_present ↦
            let (result, present') = device_present o.context present in (result, some present')
      ]
    ]
  ]

  -- `gdox_scsi_transport_prepare_close`
  unfoldable pub transport_prepare_close : ScsiTransport C → Outcome × ScsiTransport C
  transport_prepare_close t = elim (opened_transport t) [
    | none ↦ (failed invalid_argument, t)
    | some o ↦ elim o.table.prepare_close [
      | none ↦ (ok, t)
      | some prepare ↦ let (result, c) = prepare o.context in (result, keep_context t c)
    ]
  ]

  -- `gdox_scsi_transport_close`: the preparation may change the context that is closed.
  unfoldable pub transport_close : ScsiTransport C → Outcome × ScsiTransport C
  transport_close t = elim (opened_transport t) [
    | none ↦ (failed invalid_argument, t)
    | some o ↦
        let (prepared, t') = transport_prepare_close t in
        elim prepared [
          | failed code ↦ (failed code, t')
          | ok ↦ elim t'.context [
            | none ↦ (failed invalid_argument, t')
            | some c ↦ (o.close c, closed_transport)
          ]
        ]
  ]
