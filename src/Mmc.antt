-- ===== src/Mmc.antt =====
-- src/platform/mmc_commands.h and mmc_commands.c: the MMC commands of an optical drive, and the
-- tracker that tells whether its medium was changed. Outputs are there, except where a value is an
-- `Option`; a buffer that the code leaves uninitialised is blank.
pub mod Answers
pub mod Blocks
pub mod Drive
pub mod Failures
pub mod Media
pub mod Noticed
pub mod Observes
pub mod Polls
pub mod Signals
pub mod Told
use gdox.Common.{
  ℕ, ◌+◌, ◌-◌, ◌*◌, ◌/◌, ◌%◌, ◌^◌, Bool, true, false, not, ◌&&◌, ◌||◌, Option, none, some, List, [],
  ◌∷◌, ◌++◌, length, get_or, take, drop, replicate, min, ltb, leb, ◌==◌, if◌then◌else◌, u64,
}
use gdox.Fault.{invalid_argument, protocol, transport, Outcome, ok, failed, succeeded}
use gdox.Source.{event_none, event_eject_request, event_new_media, event_removal, event_changed}
use gdox.Scsi.{
  DataIn, SenseIn, ScsiTransport, transport_is_valid, scsi_command_in, scsi_command_none,
  transport_last_sense,
}

-- `gdox_mmc_identity`, without the zero behind each text
pub record MmcIdentity : Type 0 where
  pub vendor : List ℕ
  pub model : List ℕ
  pub revision : List ℕ

-- `gdox_mmc_media_tracker`
pub record MediaTracker : Type 0 where
  pub generation : ℕ
  pub pending_event : ℕ
  pub absence_latched : Bool
  pub change_latched : Bool

abbrev pub blank : ℕ → List ℕ
blank n = replicate n 0

-- Whether a byte is a space or a zero
unfoldable pub is_padding : ℕ → Bool
is_padding b = b == 32 || b == 0

unfoldable pub skip_padding : List ℕ → List ℕ
skip_padding [] = []
skip_padding (b ∷ bs) = if is_padding b then skip_padding bs else b ∷ bs

-- The text up to the last byte that is no padding
unfoldable pub cut_padding : List ℕ → List ℕ
cut_padding [] = []
cut_padding (b ∷ bs) = elim (cut_padding bs) [
  | [] ↦ if is_padding b then [] else b ∷ []
  | c ∷ cs ↦ b ∷ c ∷ cs
]

-- `copy_ascii_field`
unfoldable pub copy_ascii_field : ℕ → List ℕ → List ℕ
copy_ascii_field output_bytes input = take (output_bytes - 1) (cut_padding (skip_padding input))

-- The bytes of a field of a response
abbrev pub field : List ℕ → ℕ → ℕ → List ℕ
field response start n = take n (drop start response)

-- What a response to INQUIRY tells
unfoldable pub identity_of : List ℕ → MmcIdentity
identity_of response = record {
  vendor = copy_ascii_field 9 (field response 8 8);
  model = copy_ascii_field 17 (field response 16 16);
  revision = copy_ascii_field 5 (field response 32 4);
}

-- The commands that carry nothing of their caller
abbrev pub inquiry_cdb : List ℕ
inquiry_cdb = 0x12 ∷ 0 ∷ 0 ∷ 0 ∷ 96 ∷ 0 ∷ []

abbrev pub test_unit_ready_cdb : List ℕ
test_unit_ready_cdb = 0 ∷ 0 ∷ 0 ∷ 0 ∷ 0 ∷ 0 ∷ []

abbrev pub request_sense_cdb : List ℕ
request_sense_cdb = 0x03 ∷ 0 ∷ 0 ∷ 0 ∷ 18 ∷ 0 ∷ []

abbrev pub event_status_cdb : List ℕ
event_status_cdb = 0x4a ∷ 0x01 ∷ 0 ∷ 0 ∷ 0x10 ∷ 0 ∷ 0 ∷ 0 ∷ 8 ∷ 0 ∷ []

-- `gdox_mmc_parse_media_event` with a place for the event
unfoldable pub parse_media_event : Option (List ℕ) → ℕ → Bool × ℕ
parse_media_event none response_bytes = (false, event_none)
parse_media_event (some response) response_bytes =
    let payload_bytes = get_or response 0 0 * 2 ^ 8 + get_or response 1 0 in
    let event_code = get_or response 4 0 % 16 in
    if ltb response_bytes 4
    then (false, event_none)
    else if leb 128 (get_or response 2 0)
    then (true, event_none)
    else if not (get_or response 2 0 % 8 == 4) || ltb payload_bytes 6 || ltb response_bytes 8
    then (false, event_none)
    else if event_code == 1
    then (true, event_eject_request)
    else if event_code == 2
    then (true, event_new_media)
    else if event_code == 3
    then (true, event_removal)
    else if event_code == 4
    then (true, event_changed)
    else (true, event_none)

-- `decode_sense`: the sense key and the additional code
unfoldable pub decode_sense : List ℕ → ℕ → Option (ℕ × ℕ)
decode_sense sense sense_bytes =
    let response_code = if sense_bytes == 0 then 0 else get_or sense 0 0 % 128 in
    if (response_code == 0x70 || response_code == 0x71) && leb 14 sense_bytes
    then some (get_or sense 2 0 % 16, get_or sense 12 0)
    else if (response_code == 0x72 || response_code == 0x73) && leb 4 sense_bytes
    then some (get_or sense 1 0 % 16, get_or sense 2 0)
    else none

-- The generation behind another: a wrapped counter skips 0.
unfoldable pub next_generation : ℕ → ℕ
next_generation g = let g' = u64 (g + 1) in if g' == 0 then u64 (g' + 1) else g'

-- `advance_media_generation`
unfoldable pub advance_media_generation : MediaTracker → MediaTracker
advance_media_generation t = record t { generation = next_generation t.generation }

-- `note_media_absent`
unfoldable pub note_media_absent : MediaTracker → MediaTracker
note_media_absent t =
    let t' =
      if not t.absence_latched && not t.change_latched then advance_media_generation t else t in
    record t' { absence_latched = true; pending_event = event_none }

-- `note_media_changed`
unfoldable pub note_media_changed : MediaTracker → MediaTracker
note_media_changed t =
    let t' =
      if not t.change_latched && not t.absence_latched then advance_media_generation t else t in
    record t' { change_latched = true; pending_event = event_none }

-- `note_media_event`
unfoldable pub note_media_event : MediaTracker → ℕ → MediaTracker
note_media_event t event =
    if event == event_eject_request
    then (if t.pending_event == event_none then record t { pending_event = event } else t)
    else if event == event_new_media || event == event_removal || event == event_changed
    then note_media_changed t
    else t

-- `gdox_mmc_media_tracker_transitioned`
unfoldable pub tracker_transitioned : Option MediaTracker → ℕ → Bool
tracker_transitioned none expected_generation = false
tracker_transitioned (some t) expected_generation =
    not (t.generation == expected_generation) || not (t.pending_event == event_none)

-- The two senses that tell of the medium
unfoldable pub note_decoded : MediaTracker → Option (ℕ × ℕ) → MediaTracker
note_decoded t none = t
note_decoded t (some (sense_key, additional_code)) =
    if sense_key == 0x02 && additional_code == 0x3a
    then note_media_absent t
    else if sense_key == 0x06 && additional_code == 0x28
    then note_media_changed t
    else t

-- `gdox_mmc_media_tracker_note_sense` on a tracker and a sense that are there
unfoldable pub tracker_note_sense : MediaTracker → List ℕ → ℕ → MediaTracker
tracker_note_sense t sense sense_bytes = note_decoded t (decode_sense sense sense_bytes)

module _ {C : Type 0} where
  -- `gdox_mmc_inquiry`; `none` is a NULL output.
  unfoldable pub mmc_inquiry :
      ScsiTransport C → ℕ → Option MmcIdentity → Outcome × Option MmcIdentity × ScsiTransport C
  mmc_inquiry t timeout_ms none = (failed invalid_argument, none, t)
  mmc_inquiry t timeout_ms (some identity) =
      let (reply, t') = scsi_command_in t inquiry_cdb (blank 96) timeout_ms 0 in
      elim reply.result [
        | failed code ↦ (failed code, some identity, t')
        | ok ↦
            if ltb reply.transferred 36
            then (failed protocol, some identity, t')
            else (ok, some (identity_of reply.buffer), t')
      ]

  -- `gdox_mmc_test_unit_ready`
  unfoldable pub mmc_test_unit_ready : ScsiTransport C → ℕ → Outcome × ScsiTransport C
  mmc_test_unit_ready t timeout_ms = scsi_command_none t test_unit_ready_cdb timeout_ms

  -- `gdox_mmc_request_sense` into the first bytes of a buffer, which the code takes to be 18 long
  unfoldable pub mmc_request_sense : ScsiTransport C → ℕ → List ℕ → ℕ → DataIn × ScsiTransport C
  mmc_request_sense t timeout_ms buffer transferred =
      let (reply, t') =
        scsi_command_in t request_sense_cdb (take 18 buffer) timeout_ms transferred in
      (record reply { buffer = reply.buffer ++ drop 18 buffer }, t')
