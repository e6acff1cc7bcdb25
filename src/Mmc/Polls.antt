-- ===== src/Mmc/Polls.antt =====
-- src/platform/mmc_commands.c: which answers of a drive move the tracker of its medium.
use mathlib.Core.Path.{subst}
use gdox.Common.{ℕ, ◌≡◌, sym, ◌⊎◌, inl, inr, Bool, Bool-cases, true, false, some, arith}
use gdox.Fault.{ErrorCode, Outcome, ok, failed, Outcome-cases}
use gdox.Scsi.{
  DataIn, SenseIn, opened_transport, validate_cdb, ScsiTransport, transport_is_valid,
  scsi_command_in, transport_last_sense,
}
use gdox.Mmc.{
  MediaTracker, blank, event_status_cdb, parse_media_event, mmc_test_unit_ready, mmc_request_sense,
}
use gdox.Mmc.Media.{capture_sense, poll_event}
use gdox.Mmc.Signals.{event, sense, heard}
use gdox.Mmc.Told.{SenseTells, EventTells, sense-tells, told-sense, event-tells, told-event}
use gdox.Mmc.Answers.{Heard, nothing-Heard, one-Heard, Heard-map}

module _ {C : Type 0} (timeout_ms : ℕ) where
  -- The sense that the transport kept of the command that failed, and the answer to REQUEST SENSE
  -- where there was none
  abbrev pub kept_by : ScsiTransport C → ℕ → SenseIn
  kept_by t n = transport_last_sense t (blank n)

  abbrev pub asked_by : ScsiTransport C → ℕ → DataIn
  asked_by t n = (mmc_request_sense t timeout_ms (kept_by t n).buffer (kept_by t n).sense_bytes).0

  -- The answer to GET EVENT STATUS NOTIFICATION
  abbrev pub notified_by : ScsiTransport C → DataIn × ScsiTransport C
  notified_by t = scsi_command_in t event_status_cdb (blank 8) timeout_ms 0

  -- The sense behind a failed command tells of another medium.
  pub data CaptureTells (t : ScsiTransport C) : Type 0 where
    kept :
        (kept_by t 32).known ≡ true
        → SenseTells (kept_by t 32).buffer (kept_by t 32).sense_bytes
        → CaptureTells t
    asked :
        (kept_by t 32).known ≡ false
        → (asked_by t 32).result ≡ ok
        → SenseTells (asked_by t 32).buffer (asked_by t 32).transferred
        → CaptureTells t

  -- The answer to a poll tells of another medium: the notification, or the sense behind its failure.
  pub data PollTells (t : ScsiTransport C) : Type 0 where
    notified :
        (notified_by t).0.result ≡ ok
        → EventTells (notified_by t).0.buffer (notified_by t).0.transferred
        → PollTells t
    refused :
        {code : ErrorCode}
        → (notified_by t).0.result ≡ failed code
        → CaptureTells (notified_by t).1
        → PollTells t

  -- The sense behind a drive that is not ready tells of another medium: the one kept, or the one
  -- asked for where that was empty.
  abbrev pub KeptTells : ScsiTransport C → Type 0
  KeptTells t =
      ((kept_by t 18).known ≡ true) × SenseTells (kept_by t 18).buffer (kept_by t 18).sense_bytes

  abbrev pub AskedTells : ScsiTransport C → Type 0
  AskedTells t =
      ((kept_by t 18).sense_bytes ≡ 0)
      × ((asked_by t 18).result ≡ ok)
      × SenseTells (asked_by t 18).buffer (asked_by t 18).transferred

  -- What TEST UNIT READY answers behind a poll, and the device as both leave it
  abbrev pub readiness_of : ScsiTransport C → MediaTracker → Outcome × ScsiTransport C
  readiness_of t tracker = mmc_test_unit_ready (poll_event timeout_ms t tracker).3 timeout_ms

  -- An answer during an observation tells of another medium.
  pub data ObserveTells (t : ScsiTransport C) (tracker : MediaTracker) : Type 0 where
    by_poll : PollTells t → ObserveTells t tracker
    by_sense :
        {code : ErrorCode}
        → (readiness_of t tracker).0 ≡ failed code
        → (KeptTells (readiness_of t tracker).1 ⊎ AskedTells (readiness_of t tracker).1)
        → ObserveTells t tracker

  capture_kept :
      (t : ScsiTransport C) (tracker : MediaTracker)
      → transport_is_valid t ≡ true
      → (kept_by t 32).known ≡ true
      → (capture_sense timeout_ms t tracker).1
        ≡ heard tracker (sense (kept_by t 32).buffer (kept_by t 32).sense_bytes)
  unfolding capture_sense heard
  capture_kept t tracker valid known = ground arith

  capture_asked :
      (t : ScsiTransport C) (tracker : MediaTracker)
      → transport_is_valid t ≡ true
      → (kept_by t 32).known ≡ false
      → (asked_by t 32).result ≡ ok
      → (capture_sense timeout_ms t tracker).1
        ≡ heard tracker (sense (asked_by t 32).buffer (asked_by t 32).transferred)
  unfolding capture_sense heard
  capture_asked t tracker valid known answered = ground arith

  capture_silent :
      (t : ScsiTransport C) (tracker : MediaTracker) (code : ErrorCode)
      → transport_is_valid t ≡ true
      → (kept_by t 32).known ≡ false
      → (asked_by t 32).result ≡ failed code
      → (capture_sense timeout_ms t tracker).1 ≡ tracker
  unfolding capture_sense
  capture_silent t tracker code valid known refusal = ground arith

  pub capture_sense-Heard :
      (t : ScsiTransport C) (tracker : MediaTracker)
      → transport_is_valid t ≡ true
      → Heard 1 (CaptureTells t) tracker (capture_sense timeout_ms t tracker).1
  capture_sense-Heard t tracker valid = elim (Bool-cases (kept_by t 32).known) [
    | inl known ↦
        subst (Heard 1 (CaptureTells t) tracker) (sym (capture_kept t tracker valid known)) (
          one-Heard (CaptureTells t) tracker
            (sense (kept_by t 32).buffer (kept_by t 32).sense_bytes)
            (λ e. kept known (told-sense _ _ e))
            (λ x. elim x [
              | kept k tells ↦ sense-tells _ _ tells
              | asked k answered tells ↦ absurd (ground arith)
            ]))
    | inr unknown ↦ elim (Outcome-cases (asked_by t 32).result) [
      | inl answered ↦
          subst (Heard 1 (CaptureTells t) tracker)
            (sym (capture_asked t tracker valid unknown answered))
            (one-Heard (CaptureTells t) tracker
              (sense (asked_by t 32).buffer (asked_by t 32).transferred)
              (λ e. asked unknown answered (told-sense _ _ e))
              (λ x. elim x [
                | kept k tells ↦ absurd (ground arith)
                | asked k a tells ↦ sense-tells _ _ tells
              ]))
      | inr (code, refusal) ↦
          subst (Heard 1 (CaptureTells t) tracker)
            (sym (capture_silent t tracker code valid unknown refusal))
            (Heard-map 0 1 (CaptureTells t) (CaptureTells t) tracker tracker (omega arith) (λ x. x)
              (λ x. x)
              (nothing-Heard (CaptureTells t) tracker
                (λ x. elim x [ kept k tells ↦ ground arith | asked k a tells ↦ ground arith ])))
    ]
  ]

  notified_by-valid :
      (t : ScsiTransport C)
      → transport_is_valid t ≡ true
      → transport_is_valid (notified_by t).1 ≡ true
  unfolding transport_is_valid opened_transport scsi_command_in validate_cdb
  notified_by-valid t h = ground arith

  -- What the code made of the notification
  abbrev parsed_of : ScsiTransport C → Bool × ℕ
  parsed_of t = parse_media_event (some (notified_by t).0.buffer) (notified_by t).0.transferred

  poll_parsed :
      (t : ScsiTransport C) (tracker : MediaTracker)
      → transport_is_valid t ≡ true
      → (notified_by t).0.result ≡ ok
      → (parsed_of t).0 ≡ true
      → (poll_event timeout_ms t tracker).2 ≡ heard tracker (event (parsed_of t).1)
  unfolding poll_event heard
  poll_parsed t tracker valid answered parsed = ground arith

  poll_unparsed :
      (t : ScsiTransport C) (tracker : MediaTracker)
      → transport_is_valid t ≡ true
      → (notified_by t).0.result ≡ ok
      → (parsed_of t).0 ≡ false
      → (poll_event timeout_ms t tracker).2 ≡ tracker
  unfolding poll_event
  poll_unparsed t tracker valid answered parsed = ground arith

  poll_failed :
      (t : ScsiTransport C) (tracker : MediaTracker) (code : ErrorCode)
      → transport_is_valid t ≡ true
      → (notified_by t).0.result ≡ failed code
      → (poll_event timeout_ms t tracker).2 ≡ (capture_sense timeout_ms (notified_by t).1 tracker).1
  unfolding poll_event
  poll_failed t tracker code valid refusal = ground arith

  pub poll_event-Heard :
      (t : ScsiTransport C) (tracker : MediaTracker)
      → transport_is_valid t ≡ true
      → Heard 1 (PollTells t) tracker (poll_event timeout_ms t tracker).2
  poll_event-Heard t tracker valid = elim (Outcome-cases (notified_by t).0.result) [
    | inl answered ↦ elim (Bool-cases (parsed_of t).0) [
      | inl parsed ↦
          subst (Heard 1 (PollTells t) tracker) (sym (poll_parsed t tracker valid answered parsed))
            (one-Heard (PollTells t) tracker (event (parsed_of t).1)
              (λ e. notified answered (told-event _ _ e))
              (λ x. elim x [
                | notified a tells ↦ (event-tells _ _ tells).1
                | refused refusal tells ↦ absurd (ground arith)
              ]))
      | inr unparsed ↦
          subst (Heard 1 (PollTells t) tracker)
            (sym (poll_unparsed t tracker valid answered unparsed))
            (Heard-map 0 1 (PollTells t) (PollTells t) tracker tracker (omega arith) (λ x. x)
              (λ x. x)
              (nothing-Heard (PollTells t) tracker (λ x. elim x [
                | notified a tells ↦ let p = (event-tells _ _ tells).0 in ground arith
                | refused refusal tells ↦ ground arith
              ])))
    ]
    | inr (code, refusal) ↦
        subst (Heard 1 (PollTells t) tracker) (sym (poll_failed t tracker code valid refusal)) (
          Heard-map 1 1 (CaptureTells (notified_by t).1) (PollTells t) tracker _ (omega arith)
            (λ x. refused refusal x)
            (λ x. elim x [
              | notified answered tells ↦ absurd (ground arith)
              | refused r tells ↦ tells
            ])
            (capture_sense-Heard (notified_by t).1 tracker (notified_by-valid t valid)))
  ]
