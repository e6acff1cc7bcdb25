-- ===== src/Nbd/Export/Reading.antt =====
-- The read of the disc behind a request.
use gdox.Common.{
  ℕ, ◌+◌, ◌≤◌, ◌≡◌, refl, sym, ap, ◌∙◌, ◌≢◌, ◌⊎◌, inl, inr, List, [], ◌∷◌, ◌++◌, append-nil, length,
  drop, Image, slice, if◌then◌else◌, arith,
}
use gdox.Fault.{ErrorCode, io, error_is_set, Outcome, ok, failed, failed-ne-ok, Outcome-cases}
use gdox.Disc.{Disc}
use gdox.Disc.Dispatch.{disc_read_buffer}
use gdox.Disc.Image.{readable_bytes, ServesBytes}
use gdox.Nbd.Session.{Session}
use gdox.Nbd.Session.Transmit.{read_disc_request}

drop-length : (xs : List ℕ) → drop (length xs) xs ≡ []
drop-length [] = refl
drop-length (x ∷ xs) = drop-length xs

module _ {C : Type 0} (Good : Disc C → Type 0) (size : ℕ) (img : Image)
    (serves : ServesBytes Good size img) where
  -- What the read gives: all the bytes that were asked for, or an error, which is the disc's.
  abbrev pub ReadResult : Disc C → ℕ → List ℕ → Outcome × List ℕ → Type 0
  ReadResult d offset output (result, bytes) =
      ((result ≡ ok) × (bytes ≡ slice img offset (length output)))
      ⊎ ((code : ErrorCode) × (result ≡ failed code) × ((disc_read_buffer d offset output).0 ≢ ok))

  pub read_disc_request_lem :
      (offset : ℕ) (output : List ℕ) (s : Session C)
      → Good s.disc
      → offset + length output ≤ size
      → let out = read_disc_request offset output s in
        Good out.1.disc
        × (out.1.socket ≡ s.socket)
        × (length out.0.1 ≡ length output)
        × ReadResult s.disc offset output out.0
  unfolding read_disc_request
  read_disc_request_lem offset output s good inside =
      let reads = serves.reads s.disc offset output good in
      let whole : readable_bytes size offset output ≡ length output = omega arith in
      elim (Outcome-cases (disc_read_buffer s.disc offset output).0) [
        | inl e ↦
            let all : (disc_read_buffer s.disc offset output).2 ≡ length output =
              reads.counts e ∙ whole in
            (
              reads.keeps,
              refl,
              reads.same_length,
              inl (
                ground (arith, all),
                reads.gives e
                    ∙ ap (λ k. slice img offset k ++ drop k output) whole
                    ∙ ap (λ t. slice img offset (length output) ++ t) (drop-length output)
                    ∙ append-nil _,
              ),
            )
        | inr (code, e) ↦ (
          reads.keeps,
          refl,
          reads.same_length,
          inr (
            if error_is_set code then code else io,
            ground arith,
            λ h. absurd (failed-ne-ok code (sym e ∙ h)),
          ),
        )
      ]
