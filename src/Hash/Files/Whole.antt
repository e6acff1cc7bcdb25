-- ===== src/Hash/Files/Whole.antt =====
-- src/core/hash.c: the hash of a file is the hash of its bytes.
use gdox.Common.{
  ℕ, zero, suc, ◌+◌, ◌-◌, ◌≤◌, ◌<◌, ◌≡◌, ◌≢◌, u32_max, refl, ◌∙◌, ap, true, false, Bool-cases,
  List-cases, Option, none, some, List, [], ◌∷◌, ◌++◌, length, take, drop, take-length, inl, inr,
  min, ltb, arith, u64, u64_mod,
}
use native.Mathlib.Numerals.{unary_clauses}
use gdox.Fault.{Outcome, ok}
use gdox.Hash.{Digests, Hashes, HashBackend, HashStream, hash_stream_update, hash_buffer}
use gdox.Hash.Stream.{Digesting, hashes_of, Took, create-Took, fresh-Took, update-Took, finish-Took}
use gdox.Hash.Files.{
  FilePort, file_buffer_bytes, hash_rounds, hash_opened, hash_closed, hash_path, hash_file,
}
use mathlib.Core.Path.{subst}

-- What core/ports/preservation_io.h promises of a file with some content, while it lasts: a read in
-- front of its end gives at least one byte and at most what the buffer takes, the next of the content.
pub record HoldsFile {F : Type 0} (files : FilePort F) (path content : List ℕ) : Type 1 where
  pub At : F → ℕ → Type 0
  pub first : F
  pub opens : files.open_read path ≡ inr (first, length content)
  pub begins : At first 0
  pub reads :
      (f : F) (n capacity : ℕ)
      → At f n
      → n < length content
      → 0 < capacity
      → ((files.read f capacity).0 ≡ ok)
        × (0 < length (files.read f capacity).1)
        × (length (files.read f capacity).1 ≤ capacity)
        × ((files.read f capacity).1 ≡ take (length (files.read f capacity).1) (drop n content))
        × At (files.read f capacity).2 (n + length (files.read f capacity).1)
  pub closes : (f : F) → At f (length content) → files.close f ≡ ok

take_more : {A : Type 0} (n k : ℕ) (xs : List A) → take n xs ++ take k (drop n xs) ≡ take (n + k) xs
take_more zero k xs = let e : k ≡ 0 + k = omega arith in ap (λ j. take j xs) e
take_more (suc n) zero [] = simp unary_clauses refl
take_more (suc n) (suc k) [] = simp unary_clauses refl
take_more (suc n) k (x ∷ xs) =
    let e : suc (n + k) ≡ suc n + k = omega arith in
    ap (λ t. x ∷ t) (take_more n k xs) ∙ ap (λ j. take j (x ∷ xs)) e

module _ {B F : Type 0} (port : HashBackend B) (files : FilePort F) where
  round_reads :
      (fuel file_length n : ℕ) (f : F) (s : HashStream B)
      → n < file_length
      → let (result, received, f') = files.read f (min (file_length - n) file_buffer_bytes) in
        result ≡ ok
        → 0 < length received
        → (hash_stream_update port s received).0 ≡ ok
        → hash_rounds port files (suc fuel) file_length n f s
          ≡ hash_rounds port files fuel file_length
              (u64 (n + length received))
              f'
              (hash_stream_update port s received).1
  unfolding hash_rounds
  round_reads fuel file_length n f s h reads gives accepts =
      ground (arith, h, reads, gives, accepts)

  round_ends :
      (fuel file_length n : ℕ) (f : F) (s : HashStream B)
      → file_length ≤ n
      → hash_rounds port files fuel file_length n f s ≡ (ok, s, f)
  unfolding hash_rounds
  round_ends zero file_length n f s h = refl
  round_ends (suc fuel) file_length n f s h = ground (arith, h)

module _ {B F : Type 0} (port : HashBackend B) (digest : List ℕ → Digests)
    (d : Digesting port digest) (files : FilePort F) (path content : List ℕ)
    (holds : HoldsFile files path content) where
  -- The loop came to the end of the file, with all of it taken.
  abbrev AtEnd : Outcome × HashStream B × F → Type 0
  AtEnd (result, s, f) = (result ≡ ok) × Took port digest d s content × holds.At f (length content)

  ended :
      (fuel n : ℕ) (f : F) (s : HashStream B)
      → n ≡ length content
      → holds.At f n
      → Took port digest d s (take n content)
      → AtEnd (hash_rounds port files fuel (length content) n f s)
  ended fuel n f s e at took =
      rw (round_ends port files fuel (length content) n f s (omega arith)) (
        refl,
        subst (λ l. Took port digest d s l) (ap (λ j. take j content) e ∙ take-length content) took,
        subst (λ j. holds.At f j) e at,
      )

  rounds-AtEnd :
      (fuel n : ℕ) (f : F) (s : HashStream B)
      → length content < u64_mod
      → length content ≤ fuel + n
      → n ≤ length content
      → holds.At f n
      → Took port digest d s (take n content)
      → AtEnd (hash_rounds port files fuel (length content) n f s)
  rounds-AtEnd zero n f s fits enough inside at took = ended zero n f s (omega arith) at took
  rounds-AtEnd (suc fuel) n f s fits enough inside at took =
      elim (Bool-cases (ltb n (length content))) [
        | inr e ↦ ended (suc fuel) n f s (ground (arith, e)) at took
        | inl e ↦
            let before : n < length content = ground (arith, e) in
            let capacity = min (length content - n) file_buffer_bytes in
            let received = (files.read f capacity).1 in
            let (reads, some_bytes, few, next, at') =
              holds.reads f n capacity at before (omega arith) in
            let (accepts, took') = update-Took port digest d s (take n content) received took in
            let small : u64 (n + length received) ≡ n + length received = omega arith in
            let all_taken : take n content ++ received ≡ take (n + length received) content =
              ap (λ r. take n content ++ r) next ∙ take_more n (length received) content in
            rw
              (
                round_reads port files fuel (length content) n f s before reads some_bytes accepts,
                small,
              )
              (rounds-AtEnd fuel (n + length received) (files.read f capacity).2
                (hash_stream_update port s received).1 fits (omega arith) (omega arith) at'
                (subst (λ l. Took port digest d (hash_stream_update port s received).1 l) all_taken
                  took'))
      ]

  abbrev pub stored_length : Option ℕ → Option ℕ
  stored_length none = none
  stored_length (some old) = some (length content)

  abbrev fresh_stream : HashStream B
  fresh_stream = record { backend = d.fresh; crc32 = u32_max; finished = false }

  abbrev all_read : Outcome × HashStream B × F
  all_read = hash_rounds port files (length content) (length content) 0 holds.first fresh_stream

  read_to_end : length content < u64_mod → AtEnd all_read
  read_to_end fits =
      rounds-AtEnd (length content) 0 holds.first fresh_stream fits (omega arith) (omega arith)
        holds.begins (fresh-Took port digest d)

  opened_gives :
      (output : Hashes) (length_output : Option ℕ)
      → length content < u64_mod
      → hash_opened port files
          (record { buffer = true; stream = true })
          holds.first
          (length content)
          output
          length_output
        ≡ (ok, hashes_of digest content, stored_length length_output, all_read.2)
  unfolding hash_opened
  opened_gives output length_output fits =
      let (read, took, at) = read_to_end fits in
      let (finished, gives) = finish-Took port digest d all_read.1 content output took in
      ground (arith, create-Took port digest d, read, finished, gives)

  buffer_gives :
      (output : Hashes) → hash_buffer port true content output ≡ (ok, hashes_of digest content)
  unfolding hash_buffer
  buffer_gives output =
      let (accepts, took) =
        update-Took port digest d fresh_stream [] content (fresh-Took port digest d) in
      let (finished, gives) =
        finish-Took port digest d (hash_stream_update port fresh_stream content).1 content output
          took in
      ground (arith, create-Took port digest d, accepts, finished, gives)

  path_gives :
      (c : ℕ) (l : List ℕ) (output : Hashes) (length_output : Option ℕ)
      → path ≡ c ∷ l
      → length content < u64_mod
      → hash_path port files (record { buffer = true; stream = true }) (c ∷ l) output length_output
        ≡ (ok, some (hashes_of digest content), stored_length length_output)
  unfolding hash_path hash_closed
  path_gives c l output length_output e fits =
      let (read, took, at) = read_to_end fits in
      let opens =
        subst (λ p. files.open_read p ≡ inr (holds.first, length content)) e holds.opens in
      rw
        (
          hash_path,
          opens,
          opened_gives output length_output fits,
          hash_closed,
          holds.closes all_read.2 at,
        )
        refl

  -- For ports that keep what they promise, and a file that its length fits a uint64_t:
  -- `gdox_hash_file` succeeds however the reads cut the file into pieces, and gives the length of
  -- the file where it is asked for and the hashes that `gdox_hash_buffer` gives of the whole content.
  pub hash_file-hash_buffer :
      (output : Hashes) (length_output : Option ℕ)
      → length content < u64_mod
      → path ≢ []
      → (hash_file port files
            (record { buffer = true; stream = true })
            (record { path = some path; output = some output; length_output = length_output })
          ≡ (ok, some (hash_buffer port true content output).1, stored_length length_output))
        × (hash_buffer port true content output ≡ (ok, hashes_of digest content))
  hash_file-hash_buffer output length_output fits nonempty = elim (List-cases path) [
    | inl e ↦ absurd (nonempty e)
    | inr (c, l, e) ↦ (
      rw (buffer_gives output)
          (unfold hash_file in rw e (path_gives c l output length_output e fits)),
      buffer_gives output,
    )
  ]
