-- ===== src/Preservation/Catalog/Match.antt =====
-- src/core/preservation_catalog.c: when a disc is found in the built-in catalog, and what is
-- expected of it then.
use gdox.Common.{
  ℕ, ◌≡◌, refl, ◌↔◌, ◌⊎◌, true, false, none, some, List, [], ◌∷◌, length, if◌then◌else◌, arith,
}
use gdox.Fault.{ok}
use gdox.Source.{DiscEvidence}
use gdox.Security.{redump_sectors, ranges_validate, range_is_valid, range_length, validate_loop}
use gdox.Hash.{crc32_buffer}
use gdox.Hash.Hex.{hash_hex, hex_text}
use gdox.Preservation.{PreservationMap, parse_hex, parse_pairs, hex_nibble}
use gdox.Preservation.Catalog.{
  halo, built_in, halo_ranges, one_of, entry_matches, find_entry, absent, single, map_of, fill_map,
  match_in, catalog_match,
}

-- The evidence of a pressing that the catalog knows.
abbrev pub IsKnown : DiscEvidence → ℕ → Type 0
IsKnown evidence sectors =
    let dmi = crc32_buffer (some evidence.dmi) (length evidence.dmi) in
    (evidence.pfi_present ≡ true)
    × (evidence.dmi_present ≡ true)
    × (sectors ≡ redump_sectors)
    × (crc32_buffer (some evidence.pfi) (length evidence.pfi) ≡ 0x8fc52135)
    × ((dmi ≡ 0x8654b27e) ⊎ ((dmi ≡ 0xc7377c49) ⊎ (dmi ≡ 0xff637773)))

-- The expected hashes, as bytes
abbrev pub halo_md5_bytes : List ℕ
halo_md5_bytes =
    0x52 ∷ 0x3d ∷ 0x82 ∷ 0xbe ∷ 0x68 ∷ 0xf2 ∷ 0x67 ∷ 0x57 ∷ 0x98 ∷ 0x64 ∷ 0x33 ∷ 0x10 ∷ 0x85 ∷ 0xa5
    ∷ 0x6c ∷ 0xe8 ∷ []

abbrev pub halo_sha1_bytes : List ℕ
halo_sha1_bytes =
    0x07 ∷ 0x32 ∷ 0x6d ∷ 0x84 ∷ 0x2e ∷ 0x32 ∷ 0x4b ∷ 0x35 ∷ 0xcb ∷ 0xd5 ∷ 0x3d ∷ 0x4e ∷ 0x27 ∷ 0x9a
    ∷ 0xa3 ∷ 0x61 ∷ 0x99 ∷ 0xd7 ∷ 0x36 ∷ 0xa3 ∷ []

filled : fill_map halo ≡ (ok, some (map_of halo halo_md5_bytes halo_sha1_bytes))
unfolding fill_map parse_hex parse_pairs hex_nibble map_of
filled = refl

valid_ranges : ranges_validate (some halo_ranges) ≡ ok
unfolding ranges_validate range_is_valid range_length validate_loop
valid_ranges = refl

found_iff :
    (pfi dmi : ℕ)
    → (entry_matches halo pfi dmi ≡ true)
      ↔ ((pfi ≡ 0x8fc52135) × ((dmi ≡ 0x8654b27e) ⊎ ((dmi ≡ 0xc7377c49) ⊎ (dmi ≡ 0xff637773))))
unfolding entry_matches one_of
found_iff pfi dmi = (λ h. (ground (arith, h), ground (arith, h)), λ h. ground (arith, h))

find_only :
    (pfi dmi : ℕ)
    → find_entry built_in pfi dmi none
      ≡ (if entry_matches halo pfi dmi then single halo else absent)
unfolding find_entry
find_only pfi dmi = ground arith

-- The map of the pressing of the catalog.
abbrev pub halo_map : PreservationMap
halo_map = map_of halo halo_md5_bytes halo_sha1_bytes

matched :
    (evidence : DiscEvidence) (sectors : ℕ)
    → IsKnown evidence sectors
    → catalog_match evidence sectors ≡ (ok, some halo_map)
unfolding catalog_match match_in
matched evidence sectors (pfi_there, dmi_there, size, pfi, dmi) =
    let p = crc32_buffer (some evidence.pfi) (length evidence.pfi) in
    let d = crc32_buffer (some evidence.dmi) (length evidence.dmi) in
    let known = (found_iff p d).1 (pfi, dmi) in
    let only = find_only p d in ground (arith, pfi_there, dmi_there, size, known, only, filled)

refuses :
    (evidence : DiscEvidence) (sectors : ℕ)
    → (catalog_match evidence sectors).0 ≡ ok
    → IsKnown evidence sectors
unfolding catalog_match match_in
refuses evidence sectors e =
    let p = crc32_buffer (some evidence.pfi) (length evidence.pfi) in
    let d = crc32_buffer (some evidence.dmi) (length evidence.dmi) in
    let only = find_only p d in
    let known : entry_matches halo p d ≡ true = ground (arith, e, only) in
    let (pfi, dmi) = (found_iff p d).0 known in
    (ground (arith, e), ground (arith, e), ground (arith, e), pfi, dmi)

-- A disc is found in the catalog exactly when both its PFI and its DMI were read, it has the
-- sectors of a Redump image, and the two checksums are those of a known pressing. Its map then has
-- ranges that `gdox_security_ranges_validate` accepts, and expects the hashes that the catalog
-- spells.
pub catalog_match_iff :
    (evidence : DiscEvidence) (sectors : ℕ)
    → (((catalog_match evidence sectors).0 ≡ ok) ↔ IsKnown evidence sectors)
      × (IsKnown evidence sectors
          → (catalog_match evidence sectors ≡ (ok, some halo_map))
            × (ranges_validate (some halo_map.ranges) ≡ ok)
            × (hash_hex halo_map.expected_hashes.digests.md5 false ≡ halo.expected_md5)
            × (hash_hex halo_map.expected_hashes.digests.sha1 false ≡ halo.expected_sha1))
unfolding map_of hash_hex hex_text
catalog_match_iff evidence sectors = (
  (refuses evidence sectors, λ h. rw (matched evidence sectors h) refl),
  λ h. (matched evidence sectors h, valid_ranges, refl, refl),
)
