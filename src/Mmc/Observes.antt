-- ===== src/Mmc/Observes.antt =====
-- src/platform/mmc_commands.c: which answers of a drive move the tracker over an observation.
use mathlib.Core.Path.{subst}
use gdox.Common.{
  ℕ, ◌+◌, ◌<◌, ◌≡◌, ◌≢◌, sym, ◌↔◌, ◌⊎◌, inl, inr, true, false, Option, none, some, u64_mod, arith,
}
use gdox.Fault.{ErrorCode, ok, failed, Outcome-cases}
use gdox.Source.{MediaObservation}
use gdox.Scsi.{ScsiTransport, transport_is_valid}
use gdox.Mmc.{MediaTracker}
use gdox.Mmc.Media.{
  open_latches, poll_event, kept_sense, observe_tracked, observe_media, capture_transport_sense,
  poll_media_event,
}
use gdox.Mmc.Signals.{ready, heard, tells_change}
use gdox.Mmc.Answers.{Heard, one-Heard, Heard-Moves, Heard-trans, Heard-map}
use gdox.Mmc.Polls.{
  CaptureTells, PollTells, KeptTells, AskedTells, readiness_of, ObserveTells, by_poll, by_sense,
  poll_event-Heard, capture_sense-Heard,
}
use gdox.Mmc.Failures.{asked_of, kept_sense-Heard, asked_sense-Heard}

-- An operation leaves a tracker, and at another generation exactly when `Told`.
abbrev pub MovesBy : Type 0 → MediaTracker → Option MediaTracker → Type 0
MovesBy Told t none = ⊥
MovesBy Told t (some t') = (t'.generation ≢ t.generation) ↔ Told

-- An observation tells the generation of the tracker that it leaves.
abbrev pub TellsGeneration : Option MediaTracker → Option MediaObservation → Type 0
TellsGeneration (some t) (some o) = o.generation ≡ t.generation
TellsGeneration _ _ = ⊥

ready_tells : tells_change ready ≡ true → ⊥
unfolding tells_change
ready_tells h = ground arith

module _ {C : Type 0} (timeout_ms : ℕ) where
  observe_ready :
      (t : ScsiTransport C) (tracker : MediaTracker)
      → (readiness_of timeout_ms t tracker).0 ≡ ok
      → (observe_tracked timeout_ms t tracker).tracker
        ≡ heard (poll_event timeout_ms t tracker).2 ready
  unfolding observe_tracked heard
  observe_ready t tracker h = ground arith

  observe_unready :
      (t : ScsiTransport C) (tracker : MediaTracker) (code : ErrorCode)
      → (readiness_of timeout_ms t tracker).0 ≡ failed code
      → (observe_tracked timeout_ms t tracker).tracker
        ≡ (asked_of timeout_ms
            (readiness_of timeout_ms t tracker).1
            (poll_event timeout_ms t tracker).2).tracker
  unfolding observe_tracked
  observe_unready t tracker code h = ground arith

  observe_generation :
      (t : ScsiTransport C) (tracker : MediaTracker)
      → (observe_tracked timeout_ms t tracker).output.generation
        ≡ (observe_tracked timeout_ms t tracker).tracker.generation
  unfolding observe_tracked open_latches
  observe_generation t tracker = ground arith

  observe_tracked-Heard :
      (t : ScsiTransport C) (tracker : MediaTracker)
      → transport_is_valid t ≡ true
      → Heard 3
          (ObserveTells timeout_ms t tracker)
          tracker
          (observe_tracked timeout_ms t tracker).tracker
  observe_tracked-Heard t tracker valid =
      let polled = (poll_event timeout_ms t tracker).2 in
      let first = poll_event-Heard timeout_ms t tracker valid in
      elim (Outcome-cases (readiness_of timeout_ms t tracker).0) [
        | inl is_ready ↦
            subst (Heard 3 (ObserveTells timeout_ms t tracker) tracker)
              (sym (observe_ready t tracker is_ready))
              (Heard-map 2 3 (PollTells timeout_ms t ⊎ ⊥) (ObserveTells timeout_ms t tracker)
                tracker _ (omega arith) (λ x. elim x [ inl p ↦ by_poll p | inr n ↦ absurd n ])
                (λ x. elim x [ by_poll p ↦ inl p | by_sense refusal tells ↦ absurd (ground arith) ])
                (Heard-trans 1 1 (PollTells timeout_ms t) ⊥ tracker polled _ first
                  (one-Heard ⊥ polled ready ready_tells (λ n. absurd n))))
        | inr (code, refusal) ↦
            let t₂ = (readiness_of timeout_ms t tracker).1 in
            subst (Heard 3 (ObserveTells timeout_ms t tracker) tracker)
              (sym (observe_unready t tracker code refusal))
              (Heard-map 3 3
                (PollTells timeout_ms t ⊎ (KeptTells timeout_ms t₂ ⊎ AskedTells timeout_ms t₂))
                (ObserveTells timeout_ms t tracker) tracker _ (omega arith)
                (λ x. elim x [ inl p ↦ by_poll p | inr tells ↦ by_sense refusal tells ])
                (λ x. elim x [ by_poll p ↦ inl p | by_sense r tells ↦ inr tells ])
                (Heard-trans 1 2 (PollTells timeout_ms t)
                  (KeptTells timeout_ms t₂ ⊎ AskedTells timeout_ms t₂) tracker polled _ first
                  (Heard-trans 1 1 (KeptTells timeout_ms t₂) (AskedTells timeout_ms t₂) polled
                    (kept_sense timeout_ms t₂ polled).tracker _
                    (kept_sense-Heard timeout_ms t₂ polled)
                    (asked_sense-Heard timeout_ms t₂ polled))))
      ]

  observe_media_tracker :
      (t : ScsiTransport C) (tracker : MediaTracker) (old : MediaObservation)
      → transport_is_valid t ≡ true
      → (observe_media timeout_ms t (some tracker) (some old)).0
        ≡ some (observe_tracked timeout_ms t tracker).tracker
  unfolding observe_media
  observe_media_tracker t tracker old valid = ground arith

  observe_media_both :
      (t : ScsiTransport C) (tracker : MediaTracker) (old : MediaObservation)
      → transport_is_valid t ≡ true
      → observe_media timeout_ms t (some tracker) (some old) ≡ (
        some (observe_tracked timeout_ms t tracker).tracker,
        some (observe_tracked timeout_ms t tracker).output,
        (observe_tracked timeout_ms t tracker).device,
      )
  unfolding observe_media
  observe_media_both t tracker old valid = ground arith

  -- On a transport that is open and a tracker with its latches open, its generation at least 4 below
  -- 2^64, a poll, a sense that is captured and an observation leave the tracker at another
  -- generation exactly when an answer of the drive during it tells of another medium; the
  -- observation tells the generation of the tracker that it leaves.
  pub tracker_moves_iff :
      (t : ScsiTransport C) (tracker : MediaTracker) (old : MediaObservation)
      → transport_is_valid t ≡ true
      → tracker.absence_latched ≡ false
      → tracker.change_latched ≡ false
      → tracker.generation + 3 < u64_mod
      → MovesBy (PollTells timeout_ms t) tracker (poll_media_event timeout_ms t (some tracker)).1
        × MovesBy
            (CaptureTells timeout_ms t)
            tracker
            (capture_transport_sense timeout_ms t (some tracker)).1
        × MovesBy
            (ObserveTells timeout_ms t tracker)
            tracker
            (observe_media timeout_ms t (some tracker) (some old)).0
        × TellsGeneration
            (observe_media timeout_ms t (some tracker) (some old)).0
            (observe_media timeout_ms t (some tracker) (some old)).1
  unfolding poll_media_event capture_transport_sense
  tracker_moves_iff t tracker old valid absence change room =
      let poll =
        Heard-Moves 1 _ tracker _ absence change (omega arith)
          (poll_event-Heard timeout_ms t tracker valid) in
      let capture =
        Heard-Moves 1 _ tracker _ absence change (omega arith)
          (capture_sense-Heard timeout_ms t tracker valid) in
      let observe =
        Heard-Moves 3 _ tracker _ absence change (omega arith)
          (observe_tracked-Heard t tracker valid) in
      (
        (poll.moved, poll.moves),
        (capture.moved, capture.moves),
        subst (MovesBy (ObserveTells timeout_ms t tracker) tracker)
            (sym (observe_media_tracker t tracker old valid)) (observe.moved, observe.moves),
        subst (λ u. TellsGeneration u.0 u.1) (sym (observe_media_both t tracker old valid))
            (observe_generation t tracker),
      )
