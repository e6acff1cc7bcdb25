-- ===== src/Nbd/Telemetry/Neighbours.antt =====
-- src/platform/nbd_telemetry.c: the counters of the sequence of reads.
use mathlib.Core.Path.{subst}
use gdox.Common.{
  ℕ, ◌+◌, ◌≡◌, sym, ◌∙◌, Bool-cases, true, false, not, ◌&&◌, u64, inl, inr, List, [], ◌∷◌, arith,
}
use gdox.Nbd.Telemetry.Totals.{one_when, sequenced, neighbours, continues}
use gdox.Nbd.Telemetry.{
  Telemetry, ReadEvent, count_request, count_sequence, count_result, record_with,
}
use gdox.Nbd.Telemetry.Ledger.{ledger_record, record_all}
use gdox.Nbd.Telemetry.Sums.{count_physical-Keeps, before_drive}

sequenced_in :
    (e : ReadEvent) (es : List ReadEvent)
    → e.sequence_valid ≡ true
    → sequenced (e ∷ es) ≡ e ∷ sequenced es
unfolding sequenced
sequenced_in e es h = ground arith

sequenced_out :
    (e : ReadEvent) (es : List ReadEvent)
    → e.sequence_valid ≡ false
    → sequenced (e ∷ es) ≡ sequenced es
unfolding sequenced
sequenced_out e es h = ground arith

-- The two counters of the sequence, after so many more of each
pub record Sequence (t t' : Telemetry) (sequential discontinuous : ℕ) : Type 0 where
  pub on : t'.reads.sequential_requests ≡ t.reads.sequential_requests + sequential
  pub off : t'.reads.discontinuous_requests ≡ t.reads.discontinuous_requests + discontinuous

-- The telemetry remembers the end of this read.
record After (e : ReadEvent) (t : Telemetry) : Type 0 where
  valid : t.previous_read_valid ≡ true
  end : t.previous_read_end ≡ u64 (e.offset + e.length)

Sequence-trans :
    (t t' t'' : Telemetry) (a b c d : ℕ)
    → Sequence t t' a b
    → Sequence t' t'' c d
    → Sequence t t'' (a + c) (b + d)
Sequence-trans t t' t'' a b c d s s' = record {
  on = omega (arith, s.on, s'.on);
  off = omega (arith, s.off, s'.off);
}

Sequence-none :
    (t t' t'' : Telemetry) (c d : ℕ) → Sequence t t' 0 0 → Sequence t' t'' c d → Sequence t t'' c d
Sequence-none t t' t'' c d s s' = record {
  on = omega (arith, s.on, s'.on);
  off = omega (arith, s.off, s'.off);
}

Sequence-refl : (t : Telemetry) → Sequence t t 0 0
Sequence-refl t = record { on = omega arith; off = omega arith }

record-After :
    (t : Telemetry) (e : ReadEvent) → e.sequence_valid ≡ true → After e (ledger_record t e)
unfolding record_with
record-After t e h = record { valid = ground arith; end = ground arith }

outside-After :
    (t : Telemetry) (e e' : ReadEvent)
    → e'.sequence_valid ≡ false
    → After e t
    → After e (ledger_record t e')
unfolding record_with
outside-After t e e' h a = record { valid = ground (arith, a.valid); end = ground (arith, a.end) }

outside-invalid :
    (t : Telemetry) (e : ReadEvent)
    → e.sequence_valid ≡ false
    → t.previous_read_valid ≡ false
    → (ledger_record t e).previous_read_valid ≡ false
unfolding record_with
outside-invalid t e h v = ground arith

-- A read outside the sequence, or the first of it, counts for neither.
no_step :
    (t : Telemetry) (e : ReadEvent)
    → (e.sequence_valid && t.previous_read_valid ≡ false)
    → Sequence t (ledger_record t e) 0 0
unfolding record_with count_request count_sequence count_result
no_step t e h =
    let keeps = count_physical-Keeps e (before_drive t e) in
    record {
      on = keeps.sequential_requests ∙ ground arith;
      off = keeps.discontinuous_requests ∙ ground arith;
    }

step :
    (t : Telemetry) (e e' : ReadEvent)
    → e'.sequence_valid ≡ true
    → After e t
    → Sequence t (ledger_record t e') (one_when (continues e e')) (one_when (not (continues e e')))
unfolding record_with count_request count_sequence count_result continues
step t e e' h a =
    let keeps = count_physical-Keeps e' (before_drive t e') in
    let valid = a.valid in
    let end = a.end in
    record {
      on = keeps.sequential_requests ∙ ground arith;
      off = keeps.discontinuous_requests ∙ ground arith;
    }

abbrev pub Neighbours : Telemetry → Telemetry → List ReadEvent → Type 0
Neighbours t t' es =
    Sequence t t' (neighbours continues es) (neighbours (λ e e'. not (continues e e')) es)

-- The sequence, from the read before on
later-Neighbours :
    (es : List ReadEvent) (t : Telemetry) (e : ReadEvent)
    → After e t
    → Neighbours t (record_all ledger_record t es) (e ∷ sequenced es)
unfolding record_all neighbours sequenced
later-Neighbours [] t e a = Sequence-refl t
later-Neighbours (e' ∷ es) t e a = elim (Bool-cases e'.sequence_valid) [
  | inl h ↦
      subst (λ l. Neighbours t (record_all ledger_record (ledger_record t e') es) (e ∷ l))
        (sym (sequenced_in e' es h))
        (Sequence-trans t (ledger_record t e') _ _ _ _ _ (step t e e' h a)
          (later-Neighbours es (ledger_record t e') e' (record-After t e' h)))
  | inr h ↦
      subst (λ l. Neighbours t (record_all ledger_record (ledger_record t e') es) (e ∷ l))
        (sym (sequenced_out e' es h))
        (Sequence-none t (ledger_record t e') _ _ _ (no_step t e' (ground arith))
          (later-Neighbours es (ledger_record t e') e (outside-After t e e' h a)))
]

pub first-Neighbours :
    (es : List ReadEvent) (t : Telemetry)
    → t.previous_read_valid ≡ false
    → Neighbours t (record_all ledger_record t es) (sequenced es)
unfolding record_all neighbours sequenced
first-Neighbours [] t v = Sequence-refl t
first-Neighbours (e ∷ es) t v = elim (Bool-cases e.sequence_valid) [
  | inl h ↦
      subst (λ l. Neighbours t (record_all ledger_record (ledger_record t e) es) l)
        (sym (sequenced_in e es h))
        (Sequence-none t (ledger_record t e) _ _ _ (no_step t e (ground arith))
          (later-Neighbours es (ledger_record t e) e (record-After t e h)))
  | inr h ↦
      subst (λ l. Neighbours t (record_all ledger_record (ledger_record t e) es) l)
        (sym (sequenced_out e es h))
        (Sequence-none t (ledger_record t e) _ _ _ (no_step t e (ground arith))
          (first-Neighbours es (ledger_record t e) (outside-invalid t e h v)))
]
