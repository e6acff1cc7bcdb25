-- ===== src/Source/Patch/Forward.antt =====
-- The calls of the patched source of src/core/source.c other than reads.
use gdox.Common.{List, ◌≡◌, refl, true, arith}
use gdox.Fault.{ok, failed}
use gdox.Source.{Source}
use gdox.Source.Dispatch.{
  opened, in_range, observe_opened, source_observe_media, source_evidence,
  source_physical_read_stats, source_abort, source_prepare_close, source_close,
}
use gdox.Source.Media.{source_observe_media_lem}
use gdox.Source.Patch.{
  BytePatch, patch_observe_media, patch_evidence, patch_physical_read_stats, patch_abort,
  patch_prepare_close, patch_close,
}
use gdox.Source.Patch.Serve.{patch_on}

module _ {C : Type 0} (inner : Source C) (ps : List BytePatch) where
  observed : source_observe_media (patch_on inner ps) ≡ (true, (source_observe_media inner).1)
  unfolding opened observe_opened in_range patch_observe_media
  observed =
      let (ready, event, _, _) = source_observe_media_lem inner in
      unfold source_observe_media in ground arith

  evidence : source_evidence (patch_on inner ps) ≡ source_evidence inner
  unfolding opened source_evidence patch_evidence
  evidence = refl

  statistics : source_physical_read_stats (patch_on inner ps) ≡ source_physical_read_stats inner
  unfolding opened source_physical_read_stats patch_physical_read_stats
  statistics = refl

  aborted : source_abort (patch_on inner ps) ≡ patch_on (source_abort inner) ps
  unfolding opened source_abort patch_abort
  aborted = refl

  prepared :
      source_prepare_close (patch_on inner ps)
      ≡ ((source_prepare_close inner).0, patch_on (source_prepare_close inner).1 ps)
  unfolding opened source_prepare_close patch_prepare_close
  prepared = refl

  closed : (source_close (patch_on inner ps)).0 ≡ elim (source_prepare_close inner).0 [
    | ok ↦ (source_close (source_prepare_close inner).1).0
    | failed code ↦ failed code
  ]
  unfolding opened source_close source_prepare_close patch_prepare_close patch_close
  closed = ground arith

  -- A patched source reports the medium, the evidence and the read statistics of its inner source, and
  -- passes an abort and a preparation to close on to it; closing it prepares the inner source, and
  -- if that succeeds closes it, with the result of the inner calls.
  pub patch_forwards :
      let p = patch_on inner ps in
      (source_observe_media p ≡ (true, (source_observe_media inner).1))
      × (source_evidence p ≡ source_evidence inner)
      × (source_physical_read_stats p ≡ source_physical_read_stats inner)
      × (source_abort p ≡ patch_on (source_abort inner) ps)
      × (source_prepare_close p
          ≡ ((source_prepare_close inner).0, patch_on (source_prepare_close inner).1 ps))
      × ((source_close p).0 ≡ elim (source_prepare_close inner).0 [
        | ok ↦ (source_close (source_prepare_close inner).1).0
        | failed code ↦ failed code
      ])
  patch_forwards = (observed, evidence, statistics, aborted, prepared, closed)
