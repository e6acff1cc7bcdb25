-- ===== src/Hash/Stream.antt =====
-- src/core/hash.c: a hash stream that is fed in pieces.
use gdox.Common.{
  ℕ, ◌≡◌, refl, sym, ◌∙◌, ap, true, false, some, List, [], ◌∷◌, ◌++◌, length, inr, arith, u32_max,
}
use gdox.Fault.{ok}
use gdox.Hash.{
  Digests, Hashes, HashBackend, HashStream, crc32_update, crc32_buffer, crc32_byte,
  hash_stream_create, hash_stream_update, hash_stream_finish,
}

-- What core/ports/hash_backend.h promises: a backend that absorbed some bytes gives the digests of
-- these bytes, however they were cut into updates.
pub record Digesting {B : Type 0} (port : HashBackend B) (digest : List ℕ → Digests) : Type 1 where
  pub Absorbed : B → List ℕ → Type 0
  pub fresh : B
  pub creates : port.create ≡ inr fresh
  pub starts : Absorbed fresh []
  pub updates :
      (b : B) (xs ys : List ℕ)
      → Absorbed b xs
      → ((port.update b ys).0 ≡ ok) × Absorbed (port.update b ys).1 (xs ++ ys)
  pub finishes :
      (b : B) (xs : List ℕ) (d : Digests)
      → Absorbed b xs
      → ((port.finish b d).0 ≡ ok) × ((port.finish b d).1 ≡ digest xs)

-- The hashes of some bytes.
abbrev pub hashes_of : (List ℕ → Digests) → List ℕ → Hashes
hashes_of digest bytes = record {
  crc32 = crc32_buffer (some bytes) (length bytes);
  digests = digest bytes;
}

pub crc32_update-append :
    (crc : ℕ) (xs ys : List ℕ) → crc32_update crc (xs ++ ys) ≡ crc32_update (crc32_update crc xs) ys
unfolding crc32_update
crc32_update-append crc [] ys = refl
crc32_update-append crc (x ∷ xs) ys = crc32_update-append (crc32_byte crc x) xs ys

module _ {B : Type 0} (port : HashBackend B) (digest : List ℕ → Digests)
    (d : Digesting port digest) where
  -- A stream that took these bytes and is not finished.
  pub record Took (s : HashStream B) (xs : List ℕ) : Type 0 where
    pub absorbed : d.Absorbed s.backend xs
    pub summed : s.crc32 ≡ crc32_update u32_max xs
    pub open_ended : s.finished ≡ false

  pub create-Took :
      hash_stream_create port true
      ≡ inr (record { backend = d.fresh; crc32 = u32_max; finished = false })
  unfolding hash_stream_create
  create-Took = ground (arith, d.creates)

  pub fresh-Took : Took (record { backend = d.fresh; crc32 = u32_max; finished = false }) []
  unfolding crc32_update
  fresh-Took = record { absorbed = d.starts; summed = refl; open_ended = refl }

  update_open :
      (s : HashStream B) (ys : List ℕ)
      → s.finished ≡ false
      → hash_stream_update port s ys ≡ (
        (port.update s.backend ys).0,
        record s { backend = (port.update s.backend ys).1; crc32 = crc32_update s.crc32 ys },
      )
  unfolding hash_stream_update
  update_open s ys h = ground (arith, h)

  pub update-Took :
      (s : HashStream B) (xs ys : List ℕ)
      → Took s xs
      → ((hash_stream_update port s ys).0 ≡ ok) × Took (hash_stream_update port s ys).1 (xs ++ ys)
  update-Took s xs ys t =
      let (accepted, absorbed) = d.updates s.backend xs ys t.absorbed in
      rw (update_open s ys t.open_ended) (
        accepted,
        record {
          absorbed = absorbed;
          summed = ap (λ c. crc32_update c ys) t.summed ∙ sym (crc32_update-append u32_max xs ys);
          open_ended = t.open_ended;
        },
      )

  pub finish-Took :
      (s : HashStream B) (xs : List ℕ) (output : Hashes)
      → Took s xs
      → ((hash_stream_finish port s output).0 ≡ ok)
        × ((hash_stream_finish port s output).1 ≡ hashes_of digest xs)
  unfolding hash_stream_finish crc32_buffer
  finish-Took s xs output t =
      let (accepted, gives) = d.finishes s.backend xs output.digests t.absorbed in
      ground (arith, accepted, gives, t.summed, t.open_ended)
