-- ===== src/Source/Dispatch.antt =====
-- src/core/source.c: the functions that check a handle and call through its table of operations.
-- Each returns the handle that it leaves behind.
use gdox.Common.{
  ℕ, Bool, true, false, ◌&&◌, Option, none, some, List, length, ltb, ◌==◌, is_some, if◌then◌else◌,
}
use gdox.Fault.{invalid_argument, Outcome, ok, failed}
use gdox.Source.{
  PhysicalReadStats, no_stats, MediaObservation, no_observation, readiness_unknown,
  readiness_absent, readiness_present, event_none, event_changed, DiscEvidence, evidence_clear,
  SourceOps, Source, validate_read,
}

-- What an open handle points at: its context, and its table with the members that
-- `gdox_source_is_valid` wants.
pub record Opened (C : Type 0) : Type 0 where
  pub context : C
  pub ops : SourceOps C
  pub sector_count : C → ℕ
  pub read : C → ℕ → ℕ → List ℕ → Outcome × List ℕ × C
  pub close : C → Outcome

-- `source->context = NULL; source->ops = NULL`
abbrev pub closed_source : {C : Type 0} → Source C
closed_source = record { context = none; ops = none }

-- The handle that a constructor fills in.
abbrev pub handle : {C : Type 0} → C → SourceOps C → Source C
handle context ops = record { context = some context; ops = some ops }

-- A readiness or an event outside its enumeration becomes the first of its values.
unfoldable pub in_range : MediaObservation → MediaObservation
in_range o = record o {
  readiness = if ltb readiness_present o.readiness then readiness_unknown else o.readiness;
  event = if ltb event_changed o.event then event_none else o.event;
}

module _ {C : Type 0} where
  unfoldable pub opened_ops : C → SourceOps C → Option (Opened C)
  opened_ops context ops = elim ops.sector_count [
    | none ↦ none
    | some sector_count ↦ elim ops.read [
      | none ↦ none
      | some read ↦ elim ops.close [
        | none ↦ none
        | some close ↦ some (record {
          context = context;
          ops = ops;
          sector_count = sector_count;
          read = read;
          close = close;
        })
      ]
    ]
  ]

  -- The tests of `gdox_source_is_valid`, with what they let the caller use.
  unfoldable pub opened : Source C → Option (Opened C)
  unfolding opened_ops
  opened s = elim s.context [
    | none ↦ none
    | some context ↦ elim s.ops [ none ↦ none | some ops ↦ opened_ops context ops ]
  ]

  unfoldable pub source_is_valid : Source C → Bool
  source_is_valid s = is_some (opened s)

  unfoldable pub source_sector_count : Source C → ℕ
  source_sector_count s = elim (opened s) [ none ↦ 0 | some o ↦ o.sector_count o.context ]

  -- The call through the table, and the handle with the context as the call leaves it.
  unfoldable pub read_through : Source C → Opened C → ℕ → ℕ → List ℕ → Outcome × List ℕ × Source C
  read_through s o lba blocks output =
      let (result, buffer, context) = o.read o.context lba blocks output in
      (result, buffer, record s { context = some context })

  -- `gdox_source_read` into a buffer that is not NULL
  unfoldable pub read_buffer : Source C → ℕ → ℕ → List ℕ → Outcome × List ℕ × Source C
  unfolding read_through
  read_buffer s lba blocks output = elim (opened s) [
    | none ↦ (failed invalid_argument, output, s)
    | some o ↦ elim (validate_read (o.sector_count o.context) lba blocks (length output)) [
      | ok ↦ read_through s o lba blocks output
      | failed code ↦ (failed code, output, s)
    ]
  ]

  -- `gdox_source_read`
  unfoldable pub source_read :
      Source C → ℕ → ℕ → Option (List ℕ) → Outcome × Option (List ℕ) × Source C
  source_read s lba blocks none = (failed invalid_argument, none, s)
  source_read s lba blocks (some output) =
      let (result, buffer, s') = read_buffer s lba blocks output in (result, some buffer, s')

  -- What an open handle reports.
  unfoldable pub observe_opened : Opened C → MediaObservation
  unfolding in_range
  observe_opened o = elim o.ops.observe_media [
    | some observe ↦ in_range (observe o.context no_observation)
    | none ↦ record no_observation {
      readiness = elim o.ops.media_present [
        | none ↦ readiness_present
        | some media_present ↦
            if media_present o.context then readiness_present else readiness_absent
      ];
    }
  ]

  -- `gdox_source_observe_media`, with the observation that it stores
  unfoldable pub source_observe_media : Source C → Bool × MediaObservation
  source_observe_media s = elim (opened s) [
    | none ↦ (false, no_observation)
    | some o ↦ (true, observe_opened o)
  ]

  unfoldable pub source_media_present : Source C → Bool
  source_media_present s =
      let (observed, observation) = source_observe_media s in
      observed && observation.readiness == readiness_present

  unfoldable pub source_evidence : Source C → Bool × DiscEvidence
  source_evidence s = elim (opened s) [
    | none ↦ (false, evidence_clear)
    | some o ↦ elim o.ops.evidence [
      | none ↦ (false, evidence_clear)
      | some evidence ↦ evidence o.context evidence_clear
    ]
  ]

  unfoldable pub source_physical_read_stats : Source C → Bool × PhysicalReadStats
  source_physical_read_stats s = elim (opened s) [
    | none ↦ (false, no_stats)
    | some o ↦ elim o.ops.physical_read_stats [
      | none ↦ (false, no_stats)
      | some stats ↦ stats o.context no_stats
    ]
  ]

  unfoldable pub source_abort : Source C → Source C
  source_abort s = elim (opened s) [
    | none ↦ s
    | some o ↦ elim o.ops.abort [
      | none ↦ s
      | some abort ↦ record s { context = some (abort o.context) }
    ]
  ]

  unfoldable pub source_prepare_close : Source C → Outcome × Source C
  source_prepare_close s = elim (opened s) [
    | none ↦ (failed invalid_argument, s)
    | some o ↦ elim o.ops.prepare_close [
      | none ↦ (ok, s)
      | some prepare ↦
          let (result, context) = prepare o.context in (result, record s { context = some context })
    ]
  ]

  -- The second half of `gdox_source_close`: the handle is emptied, then its context consumed.
  unfoldable pub close_prepared : Source C → Outcome × Source C
  close_prepared s = elim (opened s) [
    | none ↦ (failed invalid_argument, s)
    | some o ↦ (o.close o.context, closed_source)
  ]

  unfoldable pub source_close : Source C → Outcome × Source C
  unfolding close_prepared
  source_close s = elim (opened s) [
    | none ↦ (failed invalid_argument, s)
    | some o ↦
        let (result, s') = source_prepare_close s in
        elim result [ ok ↦ close_prepared s' | failed code ↦ (failed code, s') ]
  ]

  unfoldable pub source_destroy : Source C → Source C
  source_destroy s = if source_is_valid s then (source_close s).1 else s
