-- ===== src/Tests/Hashes.antt =====
-- The theorems on hashes, hexadecimal and the catalog, at concrete inputs.
use gdox.Common.{
  ℕ, zero, suc, ◌+◌, ◌≤◌, ◌<◌, ◌≡◌, refl, sym, ap, ◌↔◌, true, false, some, List, [], ◌∷◌, ◌++◌,
  length, take, drop, inr, arith, u32_max,
}
use gdox.Fault.{ok}
use gdox.Source.{DiscEvidence, evidence_clear}
use gdox.Security.{ranges_validate}
use gdox.Hash.{Digests, Hashes, HashBackend, crc32_buffer, crc32_update, hash_buffer}
use gdox.Hash.Stream.{Digesting, hashes_of}
use gdox.Hash.Files.{FilePort, hash_file}
use gdox.Hash.Files.Whole.{HoldsFile, hash_file-hash_buffer}
use gdox.Security.Inspect.{crc32}
use gdox.Hash.Crc.{crc32_buffer-crc32}
use gdox.Hash.Hex.{hash_hex}
use gdox.Preservation.{parse_hex}
use gdox.Preservation.Hexadecimal.{parse_hex-hash_hex}
use gdox.Preservation.Catalog.{halo, catalog_match}
use gdox.Preservation.Catalog.Match.{IsKnown, halo_map, catalog_match_iff}

-- A backend that keeps the bytes, as its MD5
abbrev kept : List ℕ → Digests
kept bytes = record { md5 = bytes; sha1 = []; sha256 = [] }

abbrev keeping : HashBackend (List ℕ)
keeping = record {
  create = inr [];
  update = λ b bytes. (ok, b ++ bytes);
  finish = λ b d. (ok, kept b, b);
}

keeping-Digesting : Digesting keeping kept
keeping-Digesting = record {
  Absorbed = λ b bytes. b ≡ bytes;
  fresh = [];
  creates = refl;
  starts = refl;
  updates = λ b xs ys e. (refl, ap (λ l. l ++ ys) e);
  finishes = λ b xs d e. (refl, ap kept e);
}

abbrev abc : List ℕ
abc = 97 ∷ 98 ∷ 99 ∷ []

-- A file that gives a byte at a time
abbrev byte_wise : FilePort ℕ
byte_wise = record {
  open_read = λ path. inr (0, 3);
  read = λ f capacity. (ok, take 1 (drop f abc), f + 1);
  close = λ f. ok;
}

one_byte : (n : ℕ) → n < 3 → length (take 1 (drop n abc)) ≡ 1
one_byte zero h = refl
one_byte (suc zero) h = refl
one_byte (suc (suc zero)) h = refl
one_byte (suc (suc (suc n))) h = absurd (omega arith)

reads_byte :
    (f capacity : ℕ)
    → f < 3
    → 0 < capacity
    → let (result, bytes, f') = byte_wise.read f capacity in
      (result ≡ ok)
      × (0 < length bytes)
      × (length bytes ≤ capacity)
      × (bytes ≡ take (length bytes) (drop f abc))
      × (f + length bytes ≡ f')
reads_byte f capacity h room =
    let one = one_byte f h in
    (
      refl,
      omega (arith, one),
      omega (arith, one),
      ap (λ k. take k (drop f abc)) (sym one),
      omega (arith, one),
    )

abbrev abc_path : List ℕ
abc_path = 102 ∷ []

byte_wise-HoldsFile : HoldsFile byte_wise abc_path abc
byte_wise-HoldsFile = record {
  At = λ f n. n ≡ f;
  first = 0;
  opens = refl;
  begins = refl;
  reads = λ f n capacity e h room. rw e (reads_byte f capacity (omega arith) room);
  closes = λ f e. refl;
}

abbrev no_hashes : Hashes
no_hashes = record { crc32 = 0; digests = kept [] }

hash_file-hash_buffer_example :
    (hash_file keeping byte_wise
        (record { buffer = true; stream = true })
        (record { path = some abc_path; output = some no_hashes; length_output = some 0 })
      ≡ (ok, some (hash_buffer keeping true abc no_hashes).1, some 3))
    × (hash_buffer keeping true abc no_hashes ≡ (ok, hashes_of kept abc))
hash_file-hash_buffer_example =
    hash_file-hash_buffer keeping kept keeping-Digesting byte_wise abc_path abc byte_wise-HoldsFile
      no_hashes (some 0) (omega arith) (λ e. ground (arith, e))

crc32_buffer-crc32_example :
    (crc32_buffer (some (abc ++ abc)) (length (abc ++ abc)) ≡ crc32 (abc ++ abc))
    × (crc32_update u32_max (abc ++ abc) ≡ crc32_update (crc32_update u32_max abc) abc)
crc32_buffer-crc32_example = crc32_buffer-crc32 abc abc

parse_hex-hash_hex_example : parse_hex (hash_hex abc true) 3 ≡ some abc
parse_hex-hash_hex_example = parse_hex-hash_hex abc true (omega arith)

abbrev read_evidence : DiscEvidence
read_evidence = record evidence_clear { pfi_present = true; dmi_present = true }

catalog_match_iff_example :
    (((catalog_match read_evidence 3_820_880).0 ≡ ok) ↔ IsKnown read_evidence 3_820_880)
    × (IsKnown read_evidence 3_820_880
        → (catalog_match read_evidence 3_820_880 ≡ (ok, some halo_map))
          × (ranges_validate (some halo_map.ranges) ≡ ok)
          × (hash_hex halo_map.expected_hashes.digests.md5 false ≡ halo.expected_md5)
          × (hash_hex halo_map.expected_hashes.digests.sha1 false ≡ halo.expected_sha1))
catalog_match_iff_example = catalog_match_iff read_evidence 3_820_880
