-- ===== src/Mmc/Answers.antt =====
-- src/platform/mmc_commands.c: a tracker moves exactly when an answer of the drive tells of another
-- medium.
use gdox.Common.{
  ℕ, ◌+◌, ◌≤◌, ◌<◌, ◌≡◌, ◌≢◌, refl, ap, ◌∙◌, ◌⊎◌, inl, inr, Bool, Bool-cases, true, false, ◌||◌,
  length-append, Option, none, some, List, [], ◌∷◌, ◌++◌, length, u64_mod, arith,
}
use gdox.Mmc.{MediaTracker, note_media_event, tracker_note_sense, note_decoded, decode_sense}
use gdox.Mmc.Media.{open_latches, forget_event}
use gdox.Mmc.Signals.{
  Signal, event, sense, ready, heard, heard_all, tells_change, begin_session, Since, heard-Goes,
  heard_all-grows, sense_tells_change,
}

-- Whether one of the signals tells of another medium
unfoldable pub tells_any : List Signal → Bool
tells_any [] = false
tells_any (s ∷ ss) = let rest = tells_any ss in tells_change s || rest

-- A tracker that heard a few signals, of which one tells exactly when `Told`.
pub record Heard (few : ℕ) (Told : Type 0) (t t' : MediaTracker) : Type 0 where
  pub signals : List Signal
  pub heard : t' ≡ heard_all t signals
  pub short : length signals ≤ few
  pub told : tells_any signals ≡ true → Told
  pub tells : Told → tells_any signals ≡ true

pub nothing-Heard : (Told : Type 0) (t : MediaTracker) → (Told → ⊥) → Heard 0 Told t t
unfolding heard_all tells_any
nothing-Heard Told t h = record {
  signals = [];
  heard = refl;
  short = omega arith;
  told = λ e. absurd (ground arith);
  tells = λ x. absurd (h x);
}

pub one-Heard :
    (Told : Type 0) (t : MediaTracker) (s : Signal)
    → (tells_change s ≡ true → Told)
    → (Told → tells_change s ≡ true)
    → Heard 1 Told t (heard t s)
unfolding heard_all tells_any
one-Heard Told t s told tells = record {
  signals = s ∷ [];
  heard = refl;
  short = omega arith;
  told = λ e. told (ground arith);
  tells = λ x. let e = tells x in ground arith;
}

-- The tracker that an operation leaves is at another generation exactly when `Told`.
pub record Moves (Told : Type 0) (t t' : MediaTracker) : Type 0 where
  pub moved : t'.generation ≢ t.generation → Told
  pub moves : Told → t'.generation ≢ t.generation

note_quiet :
    (t : MediaTracker) (decoded : Option (ℕ × ℕ))
    → sense_tells_change decoded ≡ false
    → (note_decoded t decoded).generation ≡ t.generation
unfolding note_decoded sense_tells_change
note_quiet t none h = refl
note_quiet t (some (key, code)) h = ground arith

-- A signal that does not tell leaves the generation.
heard-quiet :
    (t : MediaTracker) (s : Signal) → tells_change s ≡ false → (heard t s).generation ≡ t.generation
unfolding heard tells_change note_media_event tracker_note_sense open_latches forget_event
heard-quiet t (event e) h = ground arith
heard-quiet t (sense bytes count) h = note_quiet t (decode_sense bytes count) h
heard-quiet t ready h = refl
heard-quiet t begin_session h = refl

quiet_lem :
    (ss : List Signal) (t : MediaTracker)
    → tells_any ss ≡ false
    → (heard_all t ss).generation ≡ t.generation
unfolding heard_all tells_any
quiet_lem [] t h = refl
quiet_lem (s ∷ ss) t h = quiet_lem ss (heard t s) (ground arith) ∙ heard-quiet t s (ground arith)

loud_lem :
    (g : ℕ) (ss : List Signal) (t : MediaTracker)
    → Since g (length ss) t
    → tells_any ss ≡ true
    → g < (heard_all t ss).generation
unfolding heard_all tells_any
loud_lem g [] t since h = absurd (ground arith)
loud_lem g (s ∷ ss) t since h =
    let step = heard-Goes g (length ss) t s since in
    elim (Bool-cases (tells_change s)) [
      | inl now ↦ omega (arith, step.shows now, heard_all-grows g ss (heard t s) step.since)
      | inr later ↦ loud_lem g ss (heard t s) step.since (ground arith)
    ]

pub Heard-Moves :
    (few : ℕ) (Told : Type 0) (t t' : MediaTracker)
    → t.absence_latched ≡ false
    → t.change_latched ≡ false
    → t.generation + few < u64_mod
    → Heard few Told t t'
    → Moves Told t t'
Heard-Moves few Told t t' absence change room h =
    let since : Since t.generation (length h.signals) t = record {
      rises = omega arith;
      latched = λ l. absurd (ground arith);
      room_left = omega (arith, h.short);
    } in
    let same : t'.generation ≡ (heard_all t h.signals).generation =
      ap (λ u. u.generation) h.heard in
    record {
      moved = λ ne. elim (Bool-cases (tells_any h.signals)) [
        | inl loud ↦ h.told loud
        | inr quiet ↦ absurd (ne (same ∙ quiet_lem h.signals t quiet))
      ];
      moves = λ x e.
          let past = loud_lem t.generation h.signals t since (h.tells x) in absurd (omega arith);
    }

tells_any-append : (ss rs : List Signal) → tells_any (ss ++ rs) ≡ tells_any ss || tells_any rs
unfolding tells_any
tells_any-append [] rs = refl
tells_any-append (s ∷ ss) rs = let rest = tells_any-append ss rs in ground arith

heard_all-append :
    (t : MediaTracker) (ss rs : List Signal)
    → heard_all (heard_all t ss) rs ≡ heard_all t (ss ++ rs)
unfolding heard_all
heard_all-append t [] rs = refl
heard_all-append t (s ∷ ss) rs = heard_all-append (heard t s) ss rs

pub Heard-trans :
    (m n : ℕ) (A B : Type 0) (t t' t'' : MediaTracker)
    → Heard m A t t'
    → Heard n B t' t''
    → Heard (m + n) (A ⊎ B) t t''
Heard-trans m n A B t t' t'' h k = record {
  signals = h.signals ++ k.signals;
  heard =
      k.heard ∙ ap (λ u. heard_all u k.signals) h.heard ∙ heard_all-append t h.signals k.signals;
  short = omega (arith, length-append h.signals k.signals, h.short, k.short);
  told = λ e. elim (Bool-cases (tells_any h.signals)) [
    | inl first ↦ inl (h.told first)
    | inr not_first ↦ let both = tells_any-append h.signals k.signals in inr (k.told (ground arith))
  ];
  tells = λ x.
      let both = tells_any-append h.signals k.signals in
      elim x [
        | inl a ↦ let e = h.tells a in ground arith
        | inr b ↦ let e = k.tells b in ground arith
      ];
}

pub Heard-map :
    (m n : ℕ) (A B : Type 0) (t t' : MediaTracker)
    → m ≤ n
    → (A → B)
    → (B → A)
    → Heard m A t t'
    → Heard n B t t'
Heard-map m n A B t t' few f g h = record {
  signals = h.signals;
  heard = h.heard;
  short = omega (arith, h.short);
  told = λ e. f (h.told e);
  tells = λ x. h.tells (g x);
}
