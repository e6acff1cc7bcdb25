-- ===== src/Preservation/Catalog.antt =====
-- src/core/preservation_catalog.c: the built-in catalog, and the look-up of a disc in it.
pub mod Match
use gdox.Common.{
  ℕ, Bool, true, false, not, ◌||◌, Option, none, some, List, [], ◌∷◌, ◌==◌, if◌then◌else◌, length,
  replicate, take,
}
use gdox.Fault.{
  ErrorCode, no_error, invalid_argument, internal, invalid_source, Outcome, ok, failed,
}
use gdox.Source.{DiscEvidence}
use gdox.Security.{SecurityRange, redump_sectors}
use gdox.Hash.{crc32_buffer}
use gdox.Preservation.{MapSource, authenticated_ss, catalog, PreservationMap, parse_hex}

-- `gdox_catalog_entry`
pub record CatalogEntry : Type 0 where
  pub title : List ℕ
  pub mastering_id : List ℕ
  pub pfi_crc32 : ℕ
  pub dmi_crc32 : List ℕ
  pub expected_crc32 : ℕ
  pub expected_md5 : List ℕ
  pub expected_sha1 : List ℕ
  pub ranges : List SecurityRange

-- `halo_dmi_crc32`
abbrev pub halo_dmi_crc32 : List ℕ
halo_dmi_crc32 = 0x8654b27e ∷ 0xc7377c49 ∷ 0xff637773 ∷ []

-- `halo_ranges`
abbrev pub halo_ranges : List SecurityRange
halo_ranges =
    record { start_lba = 291292; end_lba = 295387 }
    ∷ record { start_lba = 447992; end_lba = 452087 }
    ∷ record { start_lba = 757224; end_lba = 761319 }
    ∷ record { start_lba = 908256; end_lba = 912351 }
    ∷ record { start_lba = 1068812; end_lba = 1072907 }
    ∷ record { start_lba = 1217808; end_lba = 1221903 }
    ∷ record { start_lba = 1373826; end_lba = 1377921 }
    ∷ record { start_lba = 1611544; end_lba = 1615639 }
    ∷ record { start_lba = 2084124; end_lba = 2088219 }
    ∷ record { start_lba = 2379638; end_lba = 2383733 }
    ∷ record { start_lba = 2527654; end_lba = 2531749 }
    ∷ record { start_lba = 2676146; end_lba = 2680241 }
    ∷ record { start_lba = 2831660; end_lba = 2835755 }
    ∷ record { start_lba = 2989624; end_lba = 2993719 }
    ∷ record { start_lba = 3296914; end_lba = 3301009 }
    ∷ record { start_lba = 3457904; end_lba = 3461999 }
    ∷ []

-- "Halo: Combat Evolved (USA, Rev 2)"
abbrev halo_title : List ℕ
halo_title =
    72 ∷ 97 ∷ 108 ∷ 111 ∷ 58 ∷ 32 ∷ 67 ∷ 111 ∷ 109 ∷ 98 ∷ 97 ∷ 116 ∷ 32 ∷ 69 ∷ 118 ∷ 111 ∷ 108 ∷ 118
    ∷ 101 ∷ 100 ∷ 32 ∷ 40 ∷ 85 ∷ 83 ∷ 65 ∷ 44 ∷ 32 ∷ 82 ∷ 101 ∷ 118 ∷ 32 ∷ 50 ∷ 41 ∷ []

-- "MS00409A"
abbrev halo_mastering_id : List ℕ
halo_mastering_id = 77 ∷ 83 ∷ 48 ∷ 48 ∷ 52 ∷ 48 ∷ 57 ∷ 65 ∷ []

-- "523d82be68f267579864331085a56ce8"
abbrev halo_md5 : List ℕ
halo_md5 =
    53 ∷ 50 ∷ 51 ∷ 100 ∷ 56 ∷ 50 ∷ 98 ∷ 101 ∷ 54 ∷ 56 ∷ 102 ∷ 50 ∷ 54 ∷ 55 ∷ 53 ∷ 55 ∷ 57 ∷ 56 ∷ 54
    ∷ 52 ∷ 51 ∷ 51 ∷ 49 ∷ 48 ∷ 56 ∷ 53 ∷ 97 ∷ 53 ∷ 54 ∷ 99 ∷ 101 ∷ 56 ∷ []

-- "07326d842e324b35cbd53d4e279aa36199d736a3"
abbrev halo_sha1 : List ℕ
halo_sha1 =
    48 ∷ 55 ∷ 51 ∷ 50 ∷ 54 ∷ 100 ∷ 56 ∷ 52 ∷ 50 ∷ 101 ∷ 51 ∷ 50 ∷ 52 ∷ 98 ∷ 51 ∷ 53 ∷ 99 ∷ 98 ∷ 100
    ∷ 53 ∷ 51 ∷ 100 ∷ 52 ∷ 101 ∷ 50 ∷ 55 ∷ 57 ∷ 97 ∷ 97 ∷ 51 ∷ 54 ∷ 49 ∷ 57 ∷ 57 ∷ 100 ∷ 55 ∷ 51
    ∷ 54 ∷ 97 ∷ 51 ∷ []

-- The element of `catalog`
abbrev pub halo : CatalogEntry
halo = record {
  title = halo_title;
  mastering_id = halo_mastering_id;
  pfi_crc32 = 0x8fc52135;
  dmi_crc32 = halo_dmi_crc32;
  expected_crc32 = 0x013986d0;
  expected_md5 = halo_md5;
  expected_sha1 = halo_sha1;
  ranges = halo_ranges;
}

abbrev pub built_in : List CatalogEntry
built_in = halo ∷ []

unfoldable pub one_of : ℕ → List ℕ → Bool
one_of x [] = false
one_of x (y ∷ l) = let rest = one_of x l in if y == x then true else rest

-- `entry_matches`
unfoldable pub entry_matches : CatalogEntry → ℕ → ℕ → Bool
entry_matches entry pfi dmi =
    if not (entry.pfi_crc32 == pfi) then false else one_of dmi entry.dmi_crc32

-- What the loop over the catalog found
pub data Found : Type 0 where
  absent ambiguous : Found
  single : CatalogEntry → Found

unfoldable pub find_entry : List CatalogEntry → ℕ → ℕ → Option CatalogEntry → Found
find_entry [] pfi dmi none = absent
find_entry [] pfi dmi (some e) = single e
find_entry (e ∷ entries) pfi dmi none =
    find_entry entries pfi dmi (if entry_matches e pfi dmi then some e else none)
find_entry (e ∷ entries) pfi dmi (some m) =
    let rest = find_entry entries pfi dmi (some m) in
    if entry_matches e pfi dmi then ambiguous else rest

-- `memset(output, 0, sizeof(*output))`
unfoldable pub empty_map : PreservationMap
empty_map = record {
  map_source = authenticated_ss;
  ranges = replicate 16 (record { start_lba = 0; end_lba = 0 });
  expected_hashes = record {
    crc32 = 0;
    digests = record { md5 = replicate 16 0; sha1 = replicate 20 0; sha256 = replicate 32 0 };
  };
  expected_hash_mask = 0;
  title = [];
  mastering_id = [];
}

-- The output for an entry, with its two parsed hashes; `snprintf` cuts a text to what its array
-- holds in front of the NUL.
unfoldable pub map_of : CatalogEntry → List ℕ → List ℕ → PreservationMap
map_of e md5 sha1 = record {
  map_source = catalog;
  ranges = e.ranges;
  expected_hashes = record {
    crc32 = e.expected_crc32;
    digests = record { md5 = md5; sha1 = sha1; sha256 = replicate 32 0 };
  };
  expected_hash_mask = 7;
  title = take 159 e.title;
  mastering_id = take 63 e.mastering_id;
}

-- The end of the look-up; the map is `none` where a hash of the catalog cannot be parsed, since
-- then the output is partly written.
unfoldable pub fill_map : CatalogEntry → Outcome × Option PreservationMap
fill_map e = elim (parse_hex e.expected_md5 16) [
  | none ↦ (failed internal, none)
  | some md5 ↦ elim (parse_hex e.expected_sha1 20) [
    | none ↦ (failed internal, none)
    | some sha1 ↦ (ok, some (map_of e md5 sha1))
  ]
]

-- The look-up in a catalog. A call that finds nothing leaves the error slot clear.
unfoldable pub match_in : List CatalogEntry → DiscEvidence → ℕ → Outcome × Option PreservationMap
match_in entries evidence sectors =
    let pfi = crc32_buffer (some evidence.pfi) (length evidence.pfi) in
    let dmi = crc32_buffer (some evidence.dmi) (length evidence.dmi) in
    if not evidence.pfi_present || not evidence.dmi_present || not (sectors == redump_sectors)
    then (failed no_error, some empty_map)
    else elim (find_entry entries pfi dmi none) [
      | absent ↦ (failed no_error, some empty_map)
      | ambiguous ↦ (failed invalid_source, some empty_map)
      | single e ↦ fill_map e
    ]

-- `gdox_preservation_catalog_match` with evidence and an output
unfoldable pub catalog_match : DiscEvidence → ℕ → Outcome × Option PreservationMap
catalog_match evidence sectors = match_in built_in evidence sectors
