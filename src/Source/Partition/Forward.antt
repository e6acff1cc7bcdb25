-- ===== src/Source/Partition/Forward.antt =====
-- The calls of the partition source of src/core/source.c other than reads.
use gdox.Common.{ℕ, ◌≡◌, refl, true, arith}
use gdox.Fault.{ok, failed}
use gdox.Source.{Source}
use gdox.Source.Dispatch.{
  opened, in_range, observe_opened, source_observe_media, source_evidence,
  source_physical_read_stats, source_abort, source_prepare_close, source_close,
}
use gdox.Source.Media.{source_observe_media_lem}
use gdox.Source.Partition.{
  partition_observe_media, partition_evidence, partition_physical_read_stats, partition_abort,
  partition_prepare_close, partition_close,
}
use gdox.Source.Partition.Serve.{partition_on}

module _ {C : Type 0} (inner : Source C) (base_lba sectors : ℕ) where
  observed :
      source_observe_media (partition_on inner base_lba sectors)
      ≡ (true, (source_observe_media inner).1)
  unfolding opened observe_opened in_range partition_observe_media
  observed =
      let (ready, event, _, _) = source_observe_media_lem inner in
      unfold source_observe_media in ground arith

  evidence : source_evidence (partition_on inner base_lba sectors) ≡ source_evidence inner
  unfolding opened source_evidence partition_evidence
  evidence = refl

  statistics :
      source_physical_read_stats (partition_on inner base_lba sectors)
      ≡ source_physical_read_stats inner
  unfolding opened source_physical_read_stats partition_physical_read_stats
  statistics = refl

  aborted :
      source_abort (partition_on inner base_lba sectors)
      ≡ partition_on (source_abort inner) base_lba sectors
  unfolding opened source_abort partition_abort
  aborted = refl

  prepared : source_prepare_close (partition_on inner base_lba sectors) ≡ (
    (source_prepare_close inner).0,
    partition_on (source_prepare_close inner).1 base_lba sectors,
  )
  unfolding opened source_prepare_close partition_prepare_close
  prepared = refl

  closed :
      (source_close (partition_on inner base_lba sectors)).0 ≡ elim (source_prepare_close inner).0 [
        | ok ↦ (source_close (source_prepare_close inner).1).0
        | failed code ↦ failed code
      ]
  unfolding opened source_close source_prepare_close partition_prepare_close partition_close
  closed = ground arith

  -- A partition reports the medium, the evidence and the read statistics of its inner source, and
  -- passes an abort and a preparation to close on to it; closing it prepares the inner source, and
  -- if that succeeds closes it, with the result of the inner calls.
  pub partition_forwards :
      let p = partition_on inner base_lba sectors in
      (source_observe_media p ≡ (true, (source_observe_media inner).1))
      × (source_evidence p ≡ source_evidence inner)
      × (source_physical_read_stats p ≡ source_physical_read_stats inner)
      × (source_abort p ≡ partition_on (source_abort inner) base_lba sectors)
      × (source_prepare_close p ≡ (
        (source_prepare_close inner).0,
        partition_on (source_prepare_close inner).1 base_lba sectors,
      ))
      × ((source_close p).0 ≡ elim (source_prepare_close inner).0 [
        | ok ↦ (source_close (source_prepare_close inner).1).0
        | failed code ↦ failed code
      ])
  partition_forwards = (observed, evidence, statistics, aborted, prepared, closed)
