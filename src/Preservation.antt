-- ===== src/Preservation.antt =====
-- include/gdox/preserve.h, src/core/preservation_catalog.c: what a preserved disc is compared with.
pub mod Catalog
pub mod Hexadecimal
use gdox.Common.{
  ℕ, ◌+◌, ◌-◌, ◌*◌, Bool, true, false, ◌&&◌, Option, none, some, List, [], ◌∷◌, length, leb, ◌==◌,
  if◌then◌else◌,
}
use gdox.Hash.{Hashes}
use gdox.Security.{SecurityRange}

-- `gdox_security_map_source`
pub data MapSource : Type 0 where
  authenticated_ss catalog user : MapSource

-- `gdox_preservation_map`; a text is what stands in front of its NUL.
pub record PreservationMap : Type 0 where
  pub map_source : MapSource
  pub ranges : List SecurityRange
  pub expected_hashes : Hashes
  pub expected_hash_mask : ℕ
  pub title : List ℕ
  pub mastering_id : List ℕ

-- `hex_nibble`; `none` is -1.
unfoldable pub hex_nibble : ℕ → Option ℕ
hex_nibble c =
    if leb 48 c && leb c 57
    then some (c - 48)
    else if leb 97 c && leb c 102
    then some (c - 97 + 10)
    else if leb 65 c && leb c 70
    then some (c - 65 + 10)
    else none

abbrev joined : Option ℕ → Option ℕ → Option (List ℕ) → Option (List ℕ)
joined none low rest = none
joined (some high) none rest = none
joined (some high) (some low) none = none
joined (some high) (some low) (some rest) = some ((high * 16 + low) ∷ rest)

-- The loop of `parse_hex` over a text of an even length
unfoldable pub parse_pairs : List ℕ → Option (List ℕ)
parse_pairs [] = some []
parse_pairs (c ∷ []) = some []
parse_pairs (c ∷ d ∷ text) =
    let rest = parse_pairs text in joined (hex_nibble c) (hex_nibble d) rest

-- `parse_hex`: the bytes, if it returns `true`.
unfoldable pub parse_hex : List ℕ → ℕ → Option (List ℕ)
parse_hex input output_bytes = if length input == output_bytes * 2 then parse_pairs input else none
