-- ===== src/Tests/Drives.antt =====
-- The theorems on optical drives, at a drive that has a disc of blocks of four bytes.
use gdox.Common.{
  ℕ, ◌*◌, ◌≡◌, refl, inl, true, false, ◌||◌, none, some, List, [], ◌∷◌, replicate, length, get_or,
  ◌==◌, if◌then◌else◌, slice, arith,
}
use gdox.Fault.{ok}
use gdox.Source.{MediaObservation, no_observation, readiness_present, event_none}
use gdox.Scsi.{
  DataIn, ScsiOps, ScsiTransport, opened_transport, transport_is_valid, validate_cdb,
  scsi_command_in, scsi_command_none,
}
use gdox.Mmc.{
  MediaTracker, parse_media_event, note_media_event, mmc_test_unit_ready, tracker_transitioned,
  decode_sense,
}
use gdox.Mmc.Media.{
  poll_media_event, poll_event, capture_transport_sense, observe_media, observe_tracked,
  open_latches,
}
use gdox.Mmc.Signals.{sense, ready, begin_session, heard_all, tells_change, sense_tells_change}
use gdox.Mmc.Noticed.{change_noticed}
use gdox.Mmc.Polls.{PollTells, CaptureTells, ObserveTells}
use gdox.Mmc.Observes.{MovesBy, TellsGeneration, tracker_moves_iff}
use gdox.Mmc.Blocks.{
  BlockRead, opcode_read_10, opcode_read_12, read_blocks, refuses_blocks, block_cdb,
}
use gdox.Mmc.Drive.{asked_bytes, DriveReads, read_blocks-Reads}
use gdox.Tests.Ram.{ram_image}

abbrev disc_block : ℕ
disc_block = 4

-- The notification of no event
abbrev quiet : List ℕ
quiet = 0 ∷ 2 ∷ 0x84 ∷ 0 ∷ 0 ∷ 0 ∷ 0 ∷ 0 ∷ []

abbrev drive_in : Unit {0} → List ℕ → List ℕ → ℕ → DataIn × Unit {0}
drive_in context cdb buffer timeout_ms = (
  record {
    result = ok;
    buffer =
        if get_or cdb 0 0 == opcode_read_10 || get_or cdb 0 0 == opcode_read_12
        then asked_bytes ram_image disc_block cdb
        else quiet;
    transferred = length buffer;
  },
  context,
)

abbrev drive_ops : ScsiOps (Unit {0})
drive_ops = record {
  command_in = some drive_in;
  command_out = some (λ context cdb input timeout_ms. (ok, length input, context));
  command_none = some (λ context cdb timeout_ms. (ok, context));
  reset = some (λ context. (ok, context));
  close = some (λ context. ok);
  prepare_close = none;
  last_sense = none;
  device_present = none;
}

abbrev drive : ScsiTransport (Unit {0})
drive = record { context = some tt; ops = some drive_ops }

drive-DriveReads : DriveReads drive ram_image disc_block
unfolding scsi_command_in opened_transport
drive-DriveReads = record { reads = λ cdb buffer ms op size result all. ground arith }

abbrev two_blocks : BlockRead
two_blocks = record {
  opcode = opcode_read_10;
  lba = 3;
  blocks = 2;
  maximum_blocks = 16;
  block_bytes = disc_block;
}

read_two : (read_blocks drive two_blocks (some (replicate 8 0)) 1_000).0 ≡ ok
unfolding read_blocks scsi_command_in opened_transport validate_cdb transport_is_valid
    refuses_blocks block_cdb
read_two = refl

read_blocks-Reads_example :
    (read_blocks drive two_blocks (some (replicate 8 0)) 1_000).1
    ≡ some (slice ram_image (3 * disc_block) (2 * disc_block))
read_blocks-Reads_example =
    read_blocks-Reads drive ram_image two_blocks (replicate 8 0) 1_000 drive-DriveReads
      (record {
        opcode = inl refl;
        lba = omega arith;
        blocks = omega arith;
        block_bytes = omega arith;
      })
      read_two

abbrev tracker : MediaTracker
tracker = record {
  generation = 1;
  pending_event = event_none;
  absence_latched = false;
  change_latched = true;
}

-- A sense 6/28: the medium may have been changed
abbrev changed_sense : List ℕ
changed_sense = 0x70 ∷ 0 ∷ 6 ∷ 0 ∷ 0 ∷ 0 ∷ 0 ∷ 10 ∷ 0 ∷ 0 ∷ 0 ∷ 0 ∷ 0x28 ∷ 0 ∷ []

abbrev seen_tracker : MediaTracker
seen_tracker = record tracker { change_latched = false }

abbrev seen : MediaObservation
seen = record { readiness = readiness_present; generation = 1; event = event_none }

observed :
    observe_media 1_000 drive (some tracker) (some no_observation)
    ≡ (some seen_tracker, some seen, drive)
unfolding observe_media observe_tracked open_latches poll_event parse_media_event note_media_event
    mmc_test_unit_ready scsi_command_in scsi_command_none opened_transport validate_cdb
    transport_is_valid
observed = refl

change_told : tells_change (sense changed_sense 14) ≡ true
unfolding tells_change sense_tells_change decode_sense
change_told = refl

change_noticed_example :
    tracker_transitioned
      (some (heard_all seen_tracker (ready ∷ sense changed_sense 14 ∷ begin_session ∷ [])))
      1
    ≡ true
change_noticed_example =
    change_noticed 1_000 drive drive tracker seen_tracker no_observation seen observed refl
      (ready ∷ []) (sense changed_sense 14) (begin_session ∷ []) change_told (omega arith)

drive_open : transport_is_valid drive ≡ true
unfolding transport_is_valid opened_transport
drive_open = refl

tracker_moves_iff_example :
    MovesBy
      (PollTells 1_000 drive)
      seen_tracker
      (poll_media_event 1_000 drive (some seen_tracker)).1
    × MovesBy
        (CaptureTells 1_000 drive)
        seen_tracker
        (capture_transport_sense 1_000 drive (some seen_tracker)).1
    × MovesBy
        (ObserveTells 1_000 drive seen_tracker)
        seen_tracker
        (observe_media 1_000 drive (some seen_tracker) (some no_observation)).0
    × TellsGeneration
        (observe_media 1_000 drive (some seen_tracker) (some no_observation)).0
        (observe_media 1_000 drive (some seen_tracker) (some no_observation)).1
tracker_moves_iff_example =
    tracker_moves_iff 1_000 drive seen_tracker no_observation drive_open refl refl (omega arith)
