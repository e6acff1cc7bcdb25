-- ===== src/Mmc/Failures.antt =====
-- src/platform/mmc_commands.c: what an observation makes of the sense behind a drive that is not ready.
use mathlib.Core.Path.{subst}
use gdox.Common.{ℕ, ◌≡◌, ◌≢◌, sym, inl, inr, Bool-cases, true, false, ◌==◌, arith}
use gdox.Fault.{ErrorCode, ok, failed, Outcome-cases}
use gdox.Scsi.{ScsiTransport}
use gdox.Mmc.{MediaTracker}
use gdox.Mmc.Media.{Sensed, kept_sense, asked_sense}
use gdox.Mmc.Signals.{sense, heard}
use gdox.Mmc.Told.{sense-tells, told-sense}
use gdox.Mmc.Answers.{Heard, nothing-Heard, one-Heard, Heard-map}
use gdox.Mmc.Polls.{kept_by, asked_by, KeptTells, AskedTells}

module _ {C : Type 0} (timeout_ms : ℕ) where
  kept_known :
      (t : ScsiTransport C) (tracker : MediaTracker)
      → (kept_by timeout_ms t 18).known ≡ true
      → (kept_sense timeout_ms t tracker).tracker
        ≡ heard tracker
            (sense (kept_by timeout_ms t 18).buffer (kept_by timeout_ms t 18).sense_bytes)
  unfolding kept_sense heard
  kept_known t tracker known = ground arith

  kept_unknown :
      (t : ScsiTransport C) (tracker : MediaTracker)
      → (kept_by timeout_ms t 18).known ≡ false
      → (kept_sense timeout_ms t tracker).tracker ≡ tracker
  unfolding kept_sense
  kept_unknown t tracker known = ground arith

  pub kept_sense-Heard :
      (t : ScsiTransport C) (tracker : MediaTracker)
      → Heard 1 (KeptTells timeout_ms t) tracker (kept_sense timeout_ms t tracker).tracker
  kept_sense-Heard t tracker = elim (Bool-cases (kept_by timeout_ms t 18).known) [
    | inl known ↦
        subst (Heard 1 (KeptTells timeout_ms t) tracker) (sym (kept_known t tracker known)) (
          one-Heard (KeptTells timeout_ms t) tracker
            (sense (kept_by timeout_ms t 18).buffer (kept_by timeout_ms t 18).sense_bytes)
            (λ e. (known, told-sense _ _ e)) (λ x. sense-tells _ _ x.1))
    | inr unknown ↦
        subst (Heard 1 (KeptTells timeout_ms t) tracker) (sym (kept_unknown t tracker unknown)) (
          Heard-map 0 1 (KeptTells timeout_ms t) (KeptTells timeout_ms t) tracker tracker
            (omega arith) (λ x. x) (λ x. x)
            (nothing-Heard (KeptTells timeout_ms t) tracker (λ x. let k = x.0 in ground arith)))
  ]

  -- What is asked for behind a sense that is kept
  abbrev pub asked_of : ScsiTransport C → MediaTracker → Sensed C
  asked_of t tracker = asked_sense timeout_ms (kept_sense timeout_ms t tracker)

  kept_bytes :
      (t : ScsiTransport C) (tracker : MediaTracker)
      → (kept_sense timeout_ms t tracker).sense_bytes ≡ (kept_by timeout_ms t 18).sense_bytes
  unfolding kept_sense
  kept_bytes t tracker = ground arith

  asked_answered :
      (t : ScsiTransport C) (tracker : MediaTracker)
      → (kept_by timeout_ms t 18).sense_bytes ≡ 0
      → (asked_by timeout_ms t 18).result ≡ ok
      → (asked_of t tracker).tracker
        ≡ heard
            (kept_sense timeout_ms t tracker).tracker
            (sense (asked_by timeout_ms t 18).buffer (asked_by timeout_ms t 18).transferred)
  unfolding kept_sense asked_sense heard
  asked_answered t tracker empty answered = ground arith

  asked_full :
      (t : ScsiTransport C) (tracker : MediaTracker)
      → (kept_by timeout_ms t 18).sense_bytes ≢ 0
      → (asked_of t tracker).tracker ≡ (kept_sense timeout_ms t tracker).tracker
  unfolding kept_sense asked_sense
  asked_full t tracker full = ground arith

  asked_refused :
      (t : ScsiTransport C) (tracker : MediaTracker) (code : ErrorCode)
      → (asked_by timeout_ms t 18).result ≡ failed code
      → (asked_of t tracker).tracker ≡ (kept_sense timeout_ms t tracker).tracker
  unfolding kept_sense asked_sense
  asked_refused t tracker code refusal = ground arith

  silent :
      (t : ScsiTransport C) (tracker : MediaTracker)
      → (asked_of t tracker).tracker ≡ (kept_sense timeout_ms t tracker).tracker
      → ¬ AskedTells timeout_ms t
      → Heard 1
          (AskedTells timeout_ms t)
          (kept_sense timeout_ms t tracker).tracker
          (asked_of t tracker).tracker
  silent t tracker same none_tells =
      let u = (kept_sense timeout_ms t tracker).tracker in
      subst (Heard 1 (AskedTells timeout_ms t) u) (sym same) (
        Heard-map 0 1 (AskedTells timeout_ms t) (AskedTells timeout_ms t) u u (omega arith) (λ x. x)
          (λ x. x) (nothing-Heard (AskedTells timeout_ms t) u none_tells))

  pub asked_sense-Heard :
      (t : ScsiTransport C) (tracker : MediaTracker)
      → Heard 1
          (AskedTells timeout_ms t)
          (kept_sense timeout_ms t tracker).tracker
          (asked_of t tracker).tracker
  asked_sense-Heard t tracker = elim (Bool-cases ((kept_by timeout_ms t 18).sense_bytes == 0)) [
    | inr full ↦
        let not_empty : (kept_by timeout_ms t 18).sense_bytes ≢ 0 = ground arith in
        silent t tracker (asked_full t tracker not_empty) (λ x. not_empty x.0)
    | inl empty ↦ elim (Outcome-cases (asked_by timeout_ms t 18).result) [
      | inl answered ↦
          let zero_bytes : (kept_by timeout_ms t 18).sense_bytes ≡ 0 = ground arith in
          let u = (kept_sense timeout_ms t tracker).tracker in
          subst (Heard 1 (AskedTells timeout_ms t) u)
            (sym (asked_answered t tracker zero_bytes answered))
            (one-Heard (AskedTells timeout_ms t) u
              (sense (asked_by timeout_ms t 18).buffer (asked_by timeout_ms t 18).transferred)
              (λ e. (zero_bytes, answered, told-sense _ _ e)) (λ x. sense-tells _ _ x.2))
      | inr (code, refusal) ↦
          silent t tracker (asked_refused t tracker code refusal) (λ x. let a = x.1 in ground arith)
    ]
  ]
