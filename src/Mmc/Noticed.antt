-- ===== src/Mmc/Noticed.antt =====
-- src/platform/mmc_commands.c: no change behind an observation goes unnoticed.
use gdox.Common.{
  ℕ, ◌+◌, ◌<◌, ◌≡◌, refl, Bool, true, false, Option, some, List, ◌∷◌, ◌++◌, length, if◌then◌else◌,
  u64_mod, arith,
}
use gdox.Fault.{by_outcome}
use gdox.Source.{MediaObservation, readiness_present, readiness_absent, readiness_unknown}
use gdox.Scsi.{ScsiTransport, transport_is_valid}
use gdox.Mmc.{MediaTracker, tracker_transitioned, mmc_test_unit_ready}
use gdox.Mmc.Media.{
  Observed, open_latches, poll_event, kept_sense, asked_sense, observe_tracked, observe_media,
}
use gdox.Mmc.Signals.{Signal, heard_all, tells_change, Since, heard_all-shows}

by_test : {A : Type 0} (P : A → Type 0) (c : Bool) (p q : A) → P p → P q → P (if c then p else q)
by_test P true p q hp hq = hp
by_test P false p q hp hq = hq

-- An observation of the tracker as it is, with its latches open
record Fresh (t : MediaTracker) (o : MediaObservation) : Type 0 where
  same : o.generation ≡ t.generation
  absence : t.absence_latched ≡ false
  change : t.change_latched ≡ false

abbrev FreshAfter : Option MediaTracker → Option MediaObservation → Type 0
FreshAfter (some t) (some o) = o.readiness ≡ readiness_present → Fresh t o
FreshAfter _ _ = ⊥

Fresh-Since :
    (t : MediaTracker) (o : MediaObservation) (room : ℕ)
    → Fresh t o
    → o.generation + room < u64_mod
    → Since o.generation room t
Fresh-Since t o room f h = record {
  rises = omega (arith, f.same);
  latched = λ l. ground (arith, f.absence, f.change);
  room_left = omega (arith, f.same);
}

module _ {C : Type 0} (timeout_ms : ℕ) where
  present-Fresh :
      (t : ScsiTransport C) (tracker : MediaTracker)
      → (observe_tracked timeout_ms t tracker).output.readiness ≡ readiness_present
      → Fresh
          (observe_tracked timeout_ms t tracker).tracker
          (observe_tracked timeout_ms t tracker).output
  unfolding observe_tracked open_latches
  present-Fresh t tracker =
      let (told, seen, polled, t₁) = poll_event timeout_ms t tracker in
      let (ready_now, t₂) = mmc_test_unit_ready t₁ timeout_ms in
      let sensed = asked_sense timeout_ms (kept_sense timeout_ms t₂ polled) in
      by_outcome
        (λ (o : Observed C). o.output.readiness ≡ readiness_present → Fresh o.tracker o.output)
        ready_now _ _ (λ code h. absurd (unready sensed.absent h))
        (λ e h. record { same = refl; absence = refl; change = refl })
    where
      unready :
          (absent : Bool)
          → (if absent then readiness_absent else readiness_unknown) ≡ readiness_present
          → ⊥
      unready true h = omega arith
      unready false h = omega arith

  observe_media-Fresh :
      (t : ScsiTransport C) (tracker : MediaTracker) (old : MediaObservation)
      → FreshAfter
          (observe_media timeout_ms t (some tracker) (some old)).0
          (observe_media timeout_ms t (some tracker) (some old)).1
  unfolding observe_media
  observe_media-Fresh t tracker old =
      by_test
        (λ (r : Option MediaTracker × Option MediaObservation × ScsiTransport C).
          FreshAfter r.0 r.1)
        (transport_is_valid t) _ _ (present-Fresh t tracker) (λ h. absurd (omega arith))

  -- Where an observation told that the medium is present, at some generation, and signals reached
  -- the tracker that it left, one of which told that the medium is gone or another one, the tracker
  -- has transitioned from that generation, whatever the other signals are; the generation and
  -- the count of the signals stay below 2^64 together.
  pub change_noticed :
      (t t' : ScsiTransport C) (tracker tracker' : MediaTracker) (old o : MediaObservation)
      → observe_media timeout_ms t (some tracker) (some old) ≡ (some tracker', some o, t')
      → o.readiness ≡ readiness_present
      → (before : List Signal) (s : Signal) (after : List Signal) → tells_change s ≡ true
      → o.generation + length (before ++ (s ∷ after)) < u64_mod
      → tracker_transitioned (some (heard_all tracker' (before ++ (s ∷ after)))) o.generation ≡ true
  unfolding tracker_transitioned
  change_noticed t t' tracker tracker' old o e present before s after tells room =
      let fresh = rw e at (observe_media-Fresh t tracker old) present in
      let past =
        heard_all-shows o.generation before s after tracker' (Fresh-Since _ _ _ fresh room) tells in
      ground arith
