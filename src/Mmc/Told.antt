-- ===== src/Mmc/Told.antt =====
-- src/platform/mmc_commands.c: the answers of a drive that tell of another medium, as the MMC standard
-- lays them out, and the signals that the code makes of them.
use gdox.Common.{
  ℕ, ◌+◌, ◌*◌, ◌%◌, ◌^◌, ◌≤◌, ◌<◌, ◌≡◌, ◌⊎◌, inl, inr, Bool-cases, leb, ◌&&◌, true, ◌||◌, some,
  List, get_or, ◌==◌, arith,
}
use gdox.Mmc.{decode_sense, parse_media_event}
use gdox.Mmc.Signals.{event, sense, tells_change, sense_tells_change}

-- Not ready, medium not present (2/3A), or unit attention, the medium may have changed (6/28)
abbrev pub OtherMedium : ℕ → ℕ → Type 0
OtherMedium key code = ((key ≡ 2) × (code ≡ 0x3a)) ⊎ ((key ≡ 6) × (code ≡ 0x28))

-- Sense data that says so: in fixed format, the key is in byte 2 and the code in byte 12; in
-- descriptor format, they are in bytes 1 and 2.
pub data SenseTells (bytes : List ℕ) (count : ℕ) : Type 0 where
  fixed :
      14 ≤ count
      → ((get_or bytes 0 0 % 128 ≡ 0x70) ⊎ (get_or bytes 0 0 % 128 ≡ 0x71))
      → OtherMedium (get_or bytes 2 0 % 16) (get_or bytes 12 0)
      → SenseTells bytes count
  descriptor :
      4 ≤ count
      → ((get_or bytes 0 0 % 128 ≡ 0x72) ⊎ (get_or bytes 0 0 % 128 ≡ 0x73))
      → OtherMedium (get_or bytes 1 0 % 16) (get_or bytes 2 0)
      → SenseTells bytes count

-- An event notification of the media class, with its four bytes of payload, that tells of a new medium, of
-- a removal or of a change
pub record EventTells (bytes : List ℕ) (count : ℕ) : Type 0 where
  pub whole : 8 ≤ count
  pub available : get_or bytes 2 0 < 128
  pub media : get_or bytes 2 0 % 8 ≡ 4
  pub payload : 6 ≤ get_or bytes 0 0 * 2 ^ 8 + get_or bytes 1 0
  pub code : (get_or bytes 4 0 % 16 ≡ 2) ⊎ (get_or bytes 4 0 % 16 ≡ 3) ⊎ (get_or bytes 4 0 % 16 ≡ 4)

pub sense-tells :
    (bytes : List ℕ) (count : ℕ) → SenseTells bytes count → tells_change (sense bytes count) ≡ true
unfolding tells_change sense_tells_change decode_sense
sense-tells bytes count (fixed whole format (inl medium)) = ground arith
sense-tells bytes count (fixed whole format (inr medium)) = ground arith
sense-tells bytes count (descriptor whole format (inl medium)) = ground arith
sense-tells bytes count (descriptor whole format (inr medium)) = ground arith

pub told-sense :
    (bytes : List ℕ) (count : ℕ) → tells_change (sense bytes count) ≡ true → SenseTells bytes count
unfolding tells_change sense_tells_change decode_sense
told-sense bytes count h =
    let format = get_or bytes 0 0 % 128 in
    elim (Bool-cases ((format == 0x70 || format == 0x71) && leb 14 count)) [
      | inl long ↦ fixed (ground arith) (ground arith) (ground arith)
      | inr short ↦ descriptor (ground arith) (ground arith) (ground arith)
    ]

pub event-tells :
    (bytes : List ℕ) (count : ℕ)
    → EventTells bytes count
    → ((parse_media_event (some bytes) count).0 ≡ true)
      × (tells_change (event (parse_media_event (some bytes) count).1) ≡ true)
unfolding tells_change parse_media_event
event-tells bytes count e = (ground arith, ground arith)

pub told-event :
    (bytes : List ℕ) (count : ℕ)
    → tells_change (event (parse_media_event (some bytes) count).1) ≡ true
    → EventTells bytes count
unfolding tells_change parse_media_event
told-event bytes count h = record {
  whole = ground arith;
  available = ground arith;
  media = ground arith;
  payload = ground arith;
  code = ground arith;
}
