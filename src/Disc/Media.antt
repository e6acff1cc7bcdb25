-- ===== src/Disc/Media.antt =====
-- What a disc of src/core/disc.c reports of its medium.
use gdox.Common.{◌≤◌, ◌≡◌, ◌↔◌, true, arith}
use gdox.Source.{readiness_present, event_changed}
use gdox.Source.Dispatch.{in_range}
use gdox.Disc.{Disc}
use gdox.Disc.Dispatch.{disc_is_valid, disc_observe_media, disc_observe_opened, disc_media_present}

module _ {C : Type 0} where
  -- Whatever the table's functions store, the observation has a readiness and an event of the
  -- enumerations, it is taken exactly from an open disc, and the medium counts as present
  -- exactly when an open disc reports the readiness for it.
  pub disc_observe_media_lem :
      (d : Disc C)
      → let (observed, o) = disc_observe_media d in
        (o.readiness ≤ readiness_present)
        × (o.event ≤ event_changed)
        × (observed ≡ disc_is_valid d)
        × ((disc_media_present d ≡ true)
            ↔ ((disc_is_valid d ≡ true) × (o.readiness ≡ readiness_present)))
  unfolding disc_observe_media disc_is_valid disc_media_present disc_observe_opened in_range
  disc_observe_media_lem d = (
    ground arith,
    ground arith,
    ground arith,
    (λ h. (ground arith, ground arith), λ h. ground arith),
  )
