-- ===== src/Disc/Dispatch.antt =====
-- src/core/disc.c: the functions that check a disc handle and call through its table. Each returns
-- the handle that it leaves behind.
use gdox.Common.{
  ℕ, Bool, true, false, ◌&&◌, Option, none, some, List, [], ◌==◌, is_some, if◌then◌else◌,
}
use gdox.Fault.{invalid_argument, Outcome, ok, failed}
use gdox.Source.{
  PhysicalReadStats, no_stats, MediaObservation, no_observation, readiness_absent,
  readiness_present,
}
use gdox.Source.Dispatch.{in_range}
use gdox.Disc.{DiscOps, Disc, Buffer, null, bytes}

-- What an open disc points at, with the members that `gdox_disc_is_valid` wants.
pub record OpenedDisc (C : Type 0) : Type 0 where
  pub context : C
  pub ops : DiscOps C
  pub length : C → ℕ
  pub read_at : C → ℕ → List ℕ → Outcome × List ℕ × ℕ × C
  pub close : C → Outcome

-- `disc->context = NULL; disc->ops = NULL`
abbrev pub closed_disc : {C : Type 0} → Disc C
closed_disc = record { context = none; ops = none }

abbrev pub disc_handle : {C : Type 0} → C → DiscOps C → Disc C
disc_handle context ops = record { context = some context; ops = some ops }

module _ {C : Type 0} where
  unfoldable pub opened_disc_ops : C → DiscOps C → Option (OpenedDisc C)
  opened_disc_ops context ops = elim ops.length [
    | none ↦ none
    | some length ↦ elim ops.read_at [
      | none ↦ none
      | some read_at ↦ elim ops.close [
        | none ↦ none
        | some close ↦ some (record {
          context = context;
          ops = ops;
          length = length;
          read_at = read_at;
          close = close;
        })
      ]
    ]
  ]

  -- The tests of `gdox_disc_is_valid`, with what they let the caller use.
  unfoldable pub opened_disc : Disc C → Option (OpenedDisc C)
  unfolding opened_disc_ops
  opened_disc d = elim d.context [
    | none ↦ none
    | some context ↦ elim d.ops [ none ↦ none | some ops ↦ opened_disc_ops context ops ]
  ]

  unfoldable pub disc_is_valid : Disc C → Bool
  disc_is_valid d = is_some (opened_disc d)

  unfoldable pub disc_length : Disc C → ℕ
  disc_length d = elim (opened_disc d) [ none ↦ 0 | some o ↦ o.length o.context ]

  -- `gdox_disc_read_at` into a buffer that is there, or of no bytes; the number is `*read_bytes`.
  unfoldable pub disc_read_buffer : Disc C → ℕ → List ℕ → Outcome × List ℕ × ℕ × Disc C
  disc_read_buffer d offset output = elim (opened_disc d) [
    | none ↦ (failed invalid_argument, output, 0, d)
    | some o ↦
        let (result, buffer, read_bytes, context) = o.read_at o.context offset output in
        (result, buffer, read_bytes, record d { context = some context })
  ]

  -- `gdox_disc_read_at`; the Boolean says whether `read_bytes` is not NULL. If the arguments are
  -- refused, `*read_bytes` is not written, which `none` says.
  unfoldable pub disc_read_at : Disc C → ℕ → Buffer → Bool → Outcome × Buffer × Option ℕ × Disc C
  disc_read_at d offset output false = (failed invalid_argument, output, none, d)
  disc_read_at d offset (null output_bytes) true =
      if disc_is_valid d && output_bytes == 0
      then (let (result, buffer, read_bytes, d') = disc_read_buffer d offset [] in
          (result, null output_bytes, some read_bytes, d'))
      else (failed invalid_argument, null output_bytes, none, d)
  disc_read_at d offset (bytes output) true =
      if disc_is_valid d
      then (let (result, buffer, read_bytes, d') = disc_read_buffer d offset output in
          (result, bytes buffer, some read_bytes, d'))
      else (failed invalid_argument, bytes output, none, d)

  unfoldable pub disc_observe_opened : OpenedDisc C → MediaObservation
  unfolding in_range
  disc_observe_opened o = elim o.ops.observe_media [
    | some observe ↦ in_range (observe o.context no_observation)
    | none ↦ record no_observation {
      readiness = elim o.ops.media_present [
        | none ↦ readiness_present
        | some media_present ↦
            if media_present o.context then readiness_present else readiness_absent
      ];
    }
  ]

  -- `gdox_disc_observe_media`, with the observation that it stores
  unfoldable pub disc_observe_media : Disc C → Bool × MediaObservation
  disc_observe_media d = elim (opened_disc d) [
    | none ↦ (false, no_observation)
    | some o ↦ (true, disc_observe_opened o)
  ]

  unfoldable pub disc_media_present : Disc C → Bool
  disc_media_present d =
      let (observed, observation) = disc_observe_media d in
      observed && observation.readiness == readiness_present

  unfoldable pub disc_physical_read_stats : Disc C → Bool × PhysicalReadStats
  disc_physical_read_stats d = elim (opened_disc d) [
    | none ↦ (false, no_stats)
    | some o ↦ elim o.ops.physical_read_stats [
      | none ↦ (false, no_stats)
      | some stats ↦ stats o.context no_stats
    ]
  ]

  unfoldable pub disc_abort : Disc C → Disc C
  disc_abort d = elim (opened_disc d) [
    | none ↦ d
    | some o ↦ elim o.ops.abort [
      | none ↦ d
      | some abort ↦ record d { context = some (abort o.context) }
    ]
  ]

  unfoldable pub disc_prepare_close : Disc C → Outcome × Disc C
  disc_prepare_close d = elim (opened_disc d) [
    | none ↦ (failed invalid_argument, d)
    | some o ↦ elim o.ops.prepare_close [
      | none ↦ (ok, d)
      | some prepare ↦
          let (result, context) = prepare o.context in (result, record d { context = some context })
    ]
  ]

  -- The second half of `gdox_disc_close`: the handle is emptied, then its context consumed.
  unfoldable pub disc_close_prepared : Disc C → Outcome × Disc C
  disc_close_prepared d = elim (opened_disc d) [
    | none ↦ (failed invalid_argument, d)
    | some o ↦ (o.close o.context, closed_disc)
  ]

  unfoldable pub disc_close : Disc C → Outcome × Disc C
  unfolding disc_close_prepared
  disc_close d = elim (opened_disc d) [
    | none ↦ (failed invalid_argument, d)
    | some o ↦
        let (result, d') = disc_prepare_close d in
        elim result [ ok ↦ disc_close_prepared d' | failed code ↦ (failed code, d') ]
  ]
