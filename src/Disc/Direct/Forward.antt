-- ===== src/Disc/Direct/Forward.antt =====
-- The calls of the direct disc of src/core/disc.c other than reads.
use gdox.Common.{ℕ, ◌≡◌, refl, true, arith}
use gdox.Fault.{ok, failed}
use gdox.Source.{Source}
use gdox.Source.Dispatch.{
  in_range, source_observe_media, source_physical_read_stats, source_abort, source_prepare_close,
  source_close,
}
use gdox.Source.Media.{source_observe_media_lem}
use gdox.Disc.Dispatch.{
  opened_disc, disc_observe_opened, disc_observe_media, disc_physical_read_stats, disc_abort,
  disc_prepare_close, disc_close,
}
use gdox.Disc.Direct.{
  Malloc, direct_observe_media, direct_physical_read_stats, direct_abort, direct_prepare_close,
  direct_close,
}
use gdox.Disc.Direct.Serve.{direct_on}

module _ {C : Type 0} (malloc : Malloc) (inner : Source C) (length : ℕ) where
  observed :
      disc_observe_media (direct_on malloc inner length) ≡ (true, (source_observe_media inner).1)
  unfolding opened_disc disc_observe_opened in_range direct_observe_media
  observed =
      let (ready, event, _, _) = source_observe_media_lem inner in
      unfold disc_observe_media in ground arith

  statistics :
      disc_physical_read_stats (direct_on malloc inner length) ≡ source_physical_read_stats inner
  unfolding opened_disc disc_physical_read_stats direct_physical_read_stats
  statistics = refl

  aborted :
      disc_abort (direct_on malloc inner length) ≡ direct_on malloc (source_abort inner) length
  unfolding opened_disc disc_abort direct_abort
  aborted = refl

  prepared :
      disc_prepare_close (direct_on malloc inner length)
      ≡ ((source_prepare_close inner).0, direct_on malloc (source_prepare_close inner).1 length)
  unfolding opened_disc disc_prepare_close direct_prepare_close
  prepared = refl

  closed : (disc_close (direct_on malloc inner length)).0 ≡ elim (source_prepare_close inner).0 [
    | ok ↦ (source_close (source_prepare_close inner).1).0
    | failed code ↦ failed code
  ]
  unfolding opened_disc disc_close disc_prepare_close direct_prepare_close direct_close
  closed = ground arith

  -- A direct disc reports the medium and the read statistics of its source, and passes an abort and
  -- a preparation to close on to it; closing the disc prepares the source, and if that succeeds
  -- closes it, with the result of the calls on the source.
  pub direct_forwards :
      let d = direct_on malloc inner length in
      (disc_observe_media d ≡ (true, (source_observe_media inner).1))
      × (disc_physical_read_stats d ≡ source_physical_read_stats inner)
      × (disc_abort d ≡ direct_on malloc (source_abort inner) length)
      × (disc_prepare_close d ≡ (
        (source_prepare_close inner).0,
        direct_on malloc (source_prepare_close inner).1 length,
      ))
      × ((disc_close d).0 ≡ elim (source_prepare_close inner).0 [
        | ok ↦ (source_close (source_prepare_close inner).1).0
        | failed code ↦ failed code
      ])
  direct_forwards = (observed, statistics, aborted, prepared, closed)
