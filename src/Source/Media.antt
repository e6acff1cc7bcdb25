-- ===== src/Source/Media.antt =====
-- What a source reports of its medium, and what a session makes of it.
use gdox.Common.{ℕ, ◌≤◌, ◌≡◌, ◌↔◌, ◌⊎◌, Bool, true, false, some, arith}
use gdox.Source.{
  MediaObservation, readiness_present, event_none, event_changed, Source, present,
  removable_session_classify,
}
use gdox.Source.Dispatch.{
  source_is_valid, source_observe_media, in_range, observe_opened, source_media_present,
}

module _ {C : Type 0} where
  -- Whatever the table's functions store, the observation has a readiness and an event of the
  -- enumerations, it is taken exactly from an open handle, and the medium counts as present
  -- exactly when an open handle reports the readiness for it.
  pub source_observe_media_lem :
      (s : Source C)
      → let (observed, o) = source_observe_media s in
        (o.readiness ≤ readiness_present)
        × (o.event ≤ event_changed)
        × (observed ≡ source_is_valid s)
        × ((source_media_present s ≡ true)
            ↔ ((source_is_valid s ≡ true) × (o.readiness ≡ readiness_present)))
  unfolding source_observe_media source_is_valid source_media_present observe_opened in_range
  source_observe_media_lem s = (
    ground arith,
    ground arith,
    ground arith,
    (λ h. (ground arith, ground arith), λ h. ground arith),
  )

-- For an event of the enumeration, a session goes on exactly when the observation has the expected generation, if one is known, no
-- event that changes or asks for the medium, and the readiness for a medium.
pub removable_session_classify-present_iff :
    (o : MediaObservation) (known : Bool) (expected : ℕ)
    → o.event ≤ event_changed
    → (removable_session_classify (some o) known expected ≡ present) ↔ (
        ((known ≡ false) ⊎ (o.generation ≡ expected))
        × (o.event ≡ event_none)
        × (o.readiness ≡ readiness_present))
unfolding removable_session_classify
removable_session_classify-present_iff o known expected h =
    (λ e. (ground arith, ground arith, ground arith), λ e. ground arith)
