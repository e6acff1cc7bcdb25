-- ===== src/Mmc/Signals.antt =====
-- src/platform/mmc_commands.c: what the tracker hears of, as a sequence of signals, and what it then
-- tells whoever saw an earlier generation.
use gdox.Common.{
  ℕ, suc, ◌+◌, ◌≤◌, ◌<◌, ◌≡◌, refl, Bool, true, false, ◌&&◌, ◌||◌, Option, none, some, List, [],
  ◌∷◌, ◌++◌, length, ◌==◌, if◌then◌else◌, u64_mod, arith,
}
use gdox.Source.{event_none, event_eject_request, event_new_media, event_removal, event_changed}
use gdox.Mmc.{
  MediaTracker, decode_sense, next_generation, advance_media_generation, note_media_absent,
  note_media_changed, note_media_event, note_decoded, tracker_note_sense,
}
use gdox.Mmc.Media.{open_latches, forget_event}

-- What reaches a tracker: an event of the drive, a sense, a drive that is ready, and a session that
-- begins.
pub data Signal : Type 0 where
  event : ℕ → Signal
  sense : List ℕ → ℕ → Signal
  ready : Signal
  begin_session : Signal

unfoldable pub heard : MediaTracker → Signal → MediaTracker
heard t (event e) = note_media_event t e
heard t (sense bytes count) = tracker_note_sense t bytes count
heard t ready = open_latches t
heard t begin_session = forget_event t

unfoldable pub heard_all : MediaTracker → List Signal → MediaTracker
heard_all t [] = t
heard_all t (s ∷ ss) = heard_all (heard t s) ss

-- The sense of a missing medium, 2/3A, or of one that may have been changed, 6/28
unfoldable pub sense_tells_change : Option (ℕ × ℕ) → Bool
sense_tells_change none = false
sense_tells_change (some (sense_key, additional_code)) =
    sense_key == 0x02 && additional_code == 0x3a || sense_key == 0x06 && additional_code == 0x28

-- Whether a signal tells that the medium is gone or another one
unfoldable pub tells_change : Signal → Bool
tells_change (event e) = e == event_new_media || e == event_removal || e == event_changed
tells_change (sense bytes count) = sense_tells_change (decode_sense bytes count)
tells_change ready = false
tells_change begin_session = false

-- A tracker that has something to tell since generation `g`: it is at a later one, or at that one
-- with its latches open, and `room` generations are left before the counter wraps.
pub record Since (g room : ℕ) (t : MediaTracker) : Type 0 where
  pub rises : g ≤ t.generation
  pub latched : (t.absence_latched || t.change_latched ≡ true) → g < t.generation
  pub room_left : t.generation + room < u64_mod

next_generation_lem : (g : ℕ) → g + 1 < u64_mod → next_generation g ≡ g + 1
unfolding next_generation
next_generation_lem g h = ground arith

-- A noted absence or change puts the tracker past `g`, by one generation at most.
absent-past :
    (g room : ℕ) (t : MediaTracker)
    → Since g (suc room) t
    → (g < (note_media_absent t).generation)
      × (t.generation ≤ (note_media_absent t).generation)
      × ((note_media_absent t).generation ≤ t.generation + 1)
unfolding note_media_absent advance_media_generation
absent-past g room t s =
    let next = next_generation_lem t.generation in
    (ground (arith, next), ground (arith, next), ground (arith, next))

changed-past :
    (g room : ℕ) (t : MediaTracker)
    → Since g (suc room) t
    → (g < (note_media_changed t).generation)
      × (t.generation ≤ (note_media_changed t).generation)
      × ((note_media_changed t).generation ≤ t.generation + 1)
unfolding note_media_changed advance_media_generation
changed-past g room t s =
    let next = next_generation_lem t.generation in
    (ground (arith, next), ground (arith, next), ground (arith, next))

-- How a tracker goes from one signal to the next: it stays where it tells at least as much, and is
-- past `g` when the signal tells of a change.
pub record Goes (g room : ℕ) (tells : Bool) (t t' : MediaTracker) : Type 0 where
  pub since : Since g room t'
  pub grows : t.generation ≤ t'.generation
  pub shows : tells ≡ true → g < t'.generation

past-Goes :
    (g room : ℕ) (tells : Bool) (t t' : MediaTracker)
    → Since g (suc room) t
    → (g < t'.generation) × (t.generation ≤ t'.generation) × (t'.generation ≤ t.generation + 1)
    → Goes g room tells t t'
past-Goes g room tells t t' s (past, grows, near) = record {
  since = record {
    rises = omega arith;
    latched = λ h. past;
    room_left = omega (arith, s.room_left);
  };
  grows = grows;
  shows = λ h. past;
}

kept-Goes :
    (g room : ℕ) (t t' : MediaTracker)
    → Since g (suc room) t
    → t'.generation ≡ t.generation
    → ((t'.absence_latched || t'.change_latched ≡ true)
        → (t.absence_latched || t.change_latched ≡ true))
    → Goes g room false t t'
kept-Goes g room t t' s e h = record {
  since = record {
    rises = omega (arith, s.rises);
    latched = λ l. omega (arith, s.latched (h l));
    room_left = omega (arith, s.room_left);
  };
  grows = omega arith;
  shows = λ l. ground arith;
}

-- A test between a way that tells of nothing and one that tells of a change
event_choice :
    (g room : ℕ) (t p q : MediaTracker) (c a : Bool)
    → (c ≡ true → a ≡ false)
    → Goes g room false t p
    → Goes g room true t q
    → Goes g room false t t
    → Goes g room a t (if c then p else if a then q else t)
event_choice g room t p q true true h hp hq ht = absurd (ground arith)
event_choice g room t p q true false h hp hq ht = hp
event_choice g room t p q false true h hp hq ht = hq
event_choice g room t p q false false h hp hq ht = ht

sense_choice :
    (g room : ℕ) (t p q : MediaTracker) (a b : Bool)
    → Goes g room true t p
    → Goes g room true t q
    → Goes g room false t t
    → Goes g room (a || b) t (if a then p else if b then q else t)
sense_choice g room t p q true b hp hq ht = hp
sense_choice g room t p q false true hp hq ht = hq
sense_choice g room t p q false false hp hq ht = ht

if-Goes :
    (g room : ℕ) (t p q : MediaTracker) (c : Bool)
    → Goes g room false t p
    → Goes g room false t q
    → Goes g room false t (if c then p else q)
if-Goes g room t p q true hp hq = hp
if-Goes g room t p q false hp hq = hq

event-Goes :
    (g room : ℕ) (t : MediaTracker) (e : ℕ)
    → Since g (suc room) t
    → Goes g room (tells_change (event e)) t (note_media_event t e)
unfolding tells_change note_media_event
event-Goes g room t e s =
    let same = kept-Goes g room t t s refl (λ h. h) in
    event_choice g room t
      (if t.pending_event == event_none then record t { pending_event = e } else t)
      (note_media_changed t) (e == event_eject_request)
      (e == event_new_media || e == event_removal || e == event_changed) (λ h. ground arith)
      (if-Goes g room t (record t { pending_event = e }) t (t.pending_event == event_none)
        (kept-Goes g room t (record t { pending_event = e }) s refl (λ h. h)) same)
      (past-Goes g room true t (note_media_changed t) s (changed-past g room t s)) same

sense-Goes :
    (g room : ℕ) (t : MediaTracker) (decoded : Option (ℕ × ℕ))
    → Since g (suc room) t
    → Goes g room (sense_tells_change decoded) t (note_decoded t decoded)
unfolding sense_tells_change note_decoded
sense-Goes g room t none s = kept-Goes g room t t s refl (λ h. h)
sense-Goes g room t (some (key, code)) s =
    sense_choice g room t (note_media_absent t) (note_media_changed t) (key == 0x02 && code == 0x3a)
      (key == 0x06 && code == 0x28)
      (past-Goes g room true t (note_media_absent t) s (absent-past g room t s))
      (past-Goes g room true t (note_media_changed t) s (changed-past g room t s))
      (kept-Goes g room t t s refl (λ h. h))

pub heard-Goes :
    (g room : ℕ) (t : MediaTracker) (s : Signal)
    → Since g (suc room) t
    → Goes g room (tells_change s) t (heard t s)
unfolding heard tells_change tracker_note_sense open_latches forget_event
heard-Goes g room t (event e) h = event-Goes g room t e h
heard-Goes g room t (sense bytes count) h = sense-Goes g room t (decode_sense bytes count) h
heard-Goes g room t ready h = kept-Goes g room t _ h refl (λ l. ground arith)
heard-Goes g room t begin_session h = kept-Goes g room t _ h refl (λ l. l)

pub heard_all-grows :
    (g : ℕ) (ss : List Signal) (t : MediaTracker)
    → Since g (length ss) t
    → t.generation ≤ (heard_all t ss).generation
unfolding heard_all
heard_all-grows g [] t h = omega arith
heard_all-grows g (s ∷ ss) t h =
    let step = heard-Goes g (length ss) t s h in
    omega (arith, step.grows, heard_all-grows g ss (heard t s) step.since)

-- A signal of a change anywhere among them takes the tracker past `g`.
pub heard_all-shows :
    (g : ℕ) (before : List Signal) (s : Signal) (after : List Signal) (t : MediaTracker)
    → Since g (length (before ++ (s ∷ after))) t
    → tells_change s ≡ true
    → g < (heard_all t (before ++ (s ∷ after))).generation
unfolding heard_all
heard_all-shows g [] s after t h e =
    let step = heard-Goes g (length after) t s h in
    omega (arith, step.shows e, heard_all-grows g after (heard t s) step.since)
heard_all-shows g (b ∷ before) s after t h e =
    heard_all-shows g before s after (heard t b)
      (heard-Goes g (length (before ++ (s ∷ after))) t b h).since e
