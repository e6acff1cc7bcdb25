-- ===== src/Mmc/Media.antt =====
-- src/platform/mmc_commands.c: how the tracker of the medium is fed, and what the observation of the
-- medium tells. A tracker or an output that is `none` is NULL.
use gdox.Common.{
  ℕ, zero, suc, Bool, true, false, not, ◌&&◌, ◌||◌, Option, none, some, List, ◌==◌, if◌then◌else◌,
}
use gdox.Fault.{ok, failed}
use gdox.Source.{
  event_none, readiness_unknown, readiness_absent, readiness_present, MediaObservation,
}
use gdox.Scsi.{ScsiTransport, transport_is_valid, scsi_command_in, transport_last_sense}
use gdox.Mmc.{
  MediaTracker, blank, event_status_cdb, parse_media_event, decode_sense, note_media_event,
  tracker_note_sense, mmc_test_unit_ready, mmc_request_sense,
}

-- What an observation leaves: the tracker, the output and the transport.
pub record Observed (C : Type 0) : Type 0 where
  pub tracker : MediaTracker
  pub output : MediaObservation
  pub device : ScsiTransport C

-- The sense that an observation goes by: whether it was decoded to a missing medium, the count of its
-- bytes, and the tracker that heard of it.
pub record Sensed (C : Type 0) : Type 0 where
  pub absent : Bool
  pub buffer : List ℕ
  pub sense_bytes : ℕ
  pub tracker : MediaTracker
  pub device : ScsiTransport C

-- What `gdox_mmc_observe_media` tells of a tracker, with a readiness
abbrev pub observation_of : MediaTracker → ℕ → MediaObservation
observation_of tracker readiness = record {
  readiness = readiness;
  generation = tracker.generation;
  event = tracker.pending_event;
}

-- `sense_known && sense_key == 0x02U && additional_code == 0x3aU`
unfoldable pub tells_absent : Option (ℕ × ℕ) → Bool
tells_absent none = false
tells_absent (some (sense_key, additional_code)) = sense_key == 0x02 && additional_code == 0x3a

-- A drive that is ready opens the latches.
unfoldable pub open_latches : MediaTracker → MediaTracker
open_latches tracker = record tracker { absence_latched = false; change_latched = false }

unfoldable pub forget_event : MediaTracker → MediaTracker
forget_event tracker = record tracker { pending_event = event_none }

module _ {C : Type 0} (timeout_ms : ℕ) where
  -- `gdox_mmc_media_tracker_capture_transport_sense` with a tracker
  unfoldable pub capture_sense :
      ScsiTransport C → MediaTracker → Bool × MediaTracker × ScsiTransport C
  capture_sense t tracker =
      let found = transport_last_sense t (blank 32) in
      let (reply, t') = mmc_request_sense t timeout_ms found.buffer found.sense_bytes in
      if not (transport_is_valid t)
      then (false, tracker, t)
      else if found.known
      then (true, tracker_note_sense tracker found.buffer found.sense_bytes, t)
      else elim reply.result [
        | failed code ↦ (false, tracker, t')
        | ok ↦ (true, tracker_note_sense tracker reply.buffer reply.transferred, t')
      ]

  -- `gdox_mmc_media_tracker_capture_transport_sense`
  unfoldable pub capture_transport_sense :
      ScsiTransport C → Option MediaTracker → Bool × Option MediaTracker × ScsiTransport C
  capture_transport_sense t none = (false, none, t)
  capture_transport_sense t (some tracker) =
      let (captured, tracker', t') = capture_sense t tracker in (captured, some tracker', t')

  -- `poll_media_event` with a tracker, and the event that it observed
  unfoldable pub poll_event :
      ScsiTransport C → MediaTracker → Bool × ℕ × MediaTracker × ScsiTransport C
  poll_event t tracker =
      let (reply, t') = scsi_command_in t event_status_cdb (blank 8) timeout_ms 0 in
      let (captured, tracker', t'') = capture_sense t' tracker in
      let (parsed, event) = parse_media_event (some reply.buffer) reply.transferred in
      if not (transport_is_valid t) then (false, event_none, tracker, t) else elim reply.result [
        | failed code ↦ (false, event_none, tracker', t'')
        | ok ↦
            if parsed
            then (true, event, note_media_event tracker event, t')
            else (false, event_none, tracker, t')
      ]

  -- `gdox_mmc_poll_media_event`
  unfoldable pub poll_media_event :
      ScsiTransport C → Option MediaTracker → Bool × Option MediaTracker × ScsiTransport C
  poll_media_event t none = (false, none, t)
  poll_media_event t (some tracker) =
      let (heard, event, tracker', t') = poll_event t tracker in (heard, some tracker', t')

  -- The `for` of `gdox_mmc_media_tracker_begin_session`, with the rounds left
  unfoldable pub baseline_rounds :
      ℕ → ScsiTransport C → MediaTracker → MediaTracker × ScsiTransport C
  baseline_rounds zero t tracker = (tracker, t)
  baseline_rounds (suc rounds) t tracker =
      let (heard, event, tracker', t') = poll_event t tracker in
      elim (not heard || event == event_none) [
        | true ↦ (tracker', t')
        | false ↦ baseline_rounds rounds t' tracker'
      ]

  -- `gdox_mmc_media_tracker_begin_session`
  unfoldable pub tracker_begin_session :
      ScsiTransport C → Option MediaTracker → Option MediaTracker × ScsiTransport C
  tracker_begin_session t none = (none, t)
  tracker_begin_session t (some tracker) =
      let (tracker', t') = baseline_rounds 16 t tracker in (some (forget_event tracker'), t')

  -- The sense of the command that failed, if the transport kept it
  unfoldable pub kept_sense : ScsiTransport C → MediaTracker → Sensed C
  kept_sense t tracker =
      let found = transport_last_sense t (blank 18) in
      if found.known
      then record {
        absent = tells_absent (decode_sense found.buffer found.sense_bytes);
        buffer = found.buffer;
        sense_bytes = found.sense_bytes;
        tracker = tracker_note_sense tracker found.buffer found.sense_bytes;
        device = t;
      }
      else record {
        absent = false;
        buffer = found.buffer;
        sense_bytes = found.sense_bytes;
        tracker = tracker;
        device = t;
      }

  -- `if (sense_bytes == 0U && gdox_mmc_request_sense(...))`
  unfoldable pub asked_sense : Sensed C → Sensed C
  asked_sense s =
      let (reply, t') = mmc_request_sense s.device timeout_ms s.buffer s.sense_bytes in
      if not (s.sense_bytes == 0) then s else elim reply.result [
        | failed code ↦ record s { device = t' }
        | ok ↦ record {
          absent = tells_absent (decode_sense reply.buffer reply.transferred);
          buffer = reply.buffer;
          sense_bytes = reply.transferred;
          tracker = tracker_note_sense s.tracker reply.buffer reply.transferred;
          device = t';
        }
      ]

  -- `gdox_mmc_observe_media` from `gdox_mmc_poll_media_event` on
  unfoldable pub observe_tracked : ScsiTransport C → MediaTracker → Observed C
  observe_tracked t tracker =
      let (heard, event, polled, t₁) = poll_event t tracker in
      let (ready, t₂) = mmc_test_unit_ready t₁ timeout_ms in
      let sensed = asked_sense (kept_sense t₂ polled) in
      elim ready [
        | ok ↦ record {
          tracker = open_latches polled;
          output = observation_of polled readiness_present;
          device = t₂;
        }
        | failed code ↦ record {
          tracker = sensed.tracker;
          output =
              observation_of sensed.tracker
                (if sensed.absent then readiness_absent else readiness_unknown);
          device = sensed.device;
        }
      ]

  -- `gdox_mmc_observe_media`
  unfoldable pub observe_media :
      ScsiTransport C
      → Option MediaTracker
      → Option MediaObservation
      → Option MediaTracker × Option MediaObservation × ScsiTransport C
  observe_media t tracker none = (tracker, none, t)
  observe_media t none (some output) =
      (none, some (record { readiness = readiness_unknown; generation = 0; event = event_none }), t)
  observe_media t (some tracker) (some output) =
      let o = observe_tracked t tracker in
      if transport_is_valid t
      then (some o.tracker, some o.output, o.device)
      else (some tracker, some (observation_of tracker readiness_unknown), t)
