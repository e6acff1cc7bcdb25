-- ===== src/Nbd/Socket/Receive/Refine.antt =====
-- The loop over `recv` of src/platform/nbd_socket.c against the view of the connection.
use gdox.Common.{
  ℕ, zero, suc, ◌+◌, ◌-◌, ◌≤◌, ◌<◌, ◌≡◌, refl, sym, ap, ◌∙◌, ◌⊎◌, inl, inr, true, false, some, List,
  [], ◌∷◌, ◌++◌, append-nil, append_assoc, length, length-append, take, drop, ltb, leb, Bool-cases,
  if◌then◌else◌, arith,
}
use gdox.Nbd.Socket.{Socket, SocketError, other, socket_read_exact}
use gdox.Nbd.Socket.Receive.{
  int_max, Received, bytes, ended, interrupted, broken, ReadExact, read_exact_loop, Receives,
}

Received-cases :
    (r : Received)
    → ((bs : List ℕ) × (r ≡ bytes bs))
      ⊎ (r ≡ ended)
      ⊎ (r ≡ interrupted)
      ⊎ ((code : SocketError) × (r ≡ broken code))
Received-cases (bytes bs) = inl (bs, refl)
Received-cases ended = inr (inl refl)
Received-cases interrupted = inr (inr (inl refl))
Received-cases (broken code) = inr (inr (inr (code, refl)))

take-past :
    (bs rest : List ℕ) (m : ℕ)
    → length bs ≤ m
    → take m (bs ++ rest) ≡ bs ++ take (m - length bs) rest
take-past [] rest m h = ap (λ k. take k rest) (omega arith)
take-past (b ∷ bs) rest zero h = absurd (omega arith)
take-past (b ∷ bs) rest (suc m) h =
    ap (λ t. b ∷ t) (take-past bs rest m (omega arith) ∙ ap (λ k. bs ++ take k rest) (omega arith))

drop-past :
    (bs rest : List ℕ) (m : ℕ) → length bs ≤ m → drop m (bs ++ rest) ≡ drop (m - length bs) rest
drop-past [] rest m h = ap (λ k. drop k rest) (omega arith)
drop-past (b ∷ bs) rest zero h = absurd (omega arith)
drop-past (b ∷ bs) rest (suc m) h =
    drop-past bs rest m (omega arith) ∙ ap (λ k. drop k rest) (omega arith)

module _ {K : Type 0} (recv : K → ℕ → Received × K) (law : Receives recv) where
  -- The loop has read what is missing of `n` bytes off the stream, or the stream has ended before.
  record ReadsStream (n : ℕ) (k : K) (output : List ℕ) (out : ReadExact K) : Type 0 where
    whole :
        n ≤ length output + length (law.stream k)
        → (out.done ≡ true)
          × (out.output ≡ output ++ take (n - length output) (law.stream k))
          × (law.stream out.system ≡ drop (n - length output) (law.stream k))
    short :
        length output + length (law.stream k) < n → (out.done ≡ false) × (out.error ≡ law.ending k)

  -- After a piece of the stream, the loop does for the rest what it should do for the whole.
  ReadsStream-piece :
      (n : ℕ) (k k' : K) (output bs : List ℕ) (out : ReadExact K)
      → length output + length bs ≤ n
      → law.stream k ≡ bs ++ law.stream k'
      → law.ending k' ≡ law.ending k
      → ReadsStream n k' (output ++ bs) out
      → ReadsStream n k output out
  ReadsStream-piece n k k' output bs out fits split same reads =
      let size = length-append output bs in
      let total = ap length split ∙ length-append bs (law.stream k') in
      let left : n - length output - length bs ≡ n - length (output ++ bs) = omega (arith, size) in
      record {
        whole = λ enough.
            let (done, bytes_read, rest) = reads.whole (omega (arith, size, total, enough)) in
            (
              done,
              bytes_read
                  ∙ append_assoc output bs (take (n - length (output ++ bs)) (law.stream k'))
                  ∙ ap (λ m. output ++ (bs ++ take m (law.stream k'))) (sym left)
                  ∙ ap (λ t. output ++ t)
                      (sym (take-past bs (law.stream k') (n - length output) (omega arith)))
                  ∙ ap (λ t. output ++ take (n - length output) t) (sym split),
              rest
                  ∙ ap (λ m. drop m (law.stream k')) (sym left)
                  ∙ sym (drop-past bs (law.stream k') (n - length output) (omega arith))
                  ∙ ap (λ t. drop (n - length output) t) (sym split),
            );
        short = λ few.
            let (failed, code) = reads.short (omega (arith, size, total, few)) in
            (failed, code ∙ same);
      }

  read_exact_loop-ReadsStream :
      (fuel n : ℕ) (k : K) (output : List ℕ) (error : SocketError)
      → length output ≤ n
      → length (law.stream k) + law.patience k < fuel
      → (out : ReadExact K) × (read_exact_loop recv fuel n k output error ≡ some out)
        × ReadsStream n k output out
  unfolding read_exact_loop
  read_exact_loop-ReadsStream zero n k output error fits enough = absurd (omega (arith, enough))
  read_exact_loop-ReadsStream (suc fuel) n k output error fits enough =
      let remaining = n - length output in
      let requested = if ltb int_max remaining then int_max else remaining in
      let k' = (recv k requested).1 in
      elim (Bool-cases (ltb (length output) n)) [
        | inr full ↦
            let nothing : n - length output ≡ 0 = ground (arith, full) in
            rw (read_exact_loop, full)
              (
                _,
                refl,
                record {
                  whole = λ h. (refl, rw nothing (sym (append-nil output)), rw nothing refl);
                  short = λ few. absurd (ground (arith, full, few));
                },
              )
        | inl more ↦
            let asks : 0 < requested = ground (arith, more) in
            let most : requested ≤ n - length output = ground arith in
            let same = law.same_ending k requested asks in
            elim (Received-cases (recv k requested).0) [
              | inl (bs, e) ↦
                  let (some_bytes, few, split, calm) = law.on_bytes k requested bs asks e in
                  let total = ap length split ∙ length-append bs (law.stream k') in
                  let (out, runs, reads) =
                    read_exact_loop-ReadsStream fuel n k' (output ++ bs) error
                      (omega (arith, length-append output bs, most, few, fits))
                      (omega (arith, total, calm, enough, some_bytes)) in
                  rw (read_exact_loop, more, e)
                    (
                      out,
                      runs,
                      ReadsStream-piece n k k' output bs out (omega (arith, most, few, fits)) split
                          same reads,
                    )
              | inr (inl e) ↦
                  let (empty, code) = law.on_end k requested asks e in
                  rw (read_exact_loop, more, e)
                    (
                      _,
                      refl,
                      record {
                        whole = λ h. absurd (ground (arith, more, ap length empty, h));
                        short = λ few. (refl, sym code);
                      },
                    )
              | inr (inr (inl e)) ↦
                  let (kept, calmer) = law.on_interrupt k requested asks e in
                  let (out, runs, reads) =
                    read_exact_loop-ReadsStream fuel n k' output other fits
                      (omega (arith, ap length kept, calmer, enough)) in
                  rw (read_exact_loop, more, e)
                    (
                      out,
                      runs,
                      ReadsStream-piece n k k' output [] out (omega (arith, fits)) (sym kept) same
                          (rw (append-nil output) reads),
                    )
              | inr (inr (inr (code, e))) ↦
                  let (empty, known) = law.on_break k requested code asks e in
                  rw (read_exact_loop, more, e)
                    (
                      _,
                      refl,
                      record {
                        whole = λ h. absurd (ground (arith, more, ap length empty, h));
                        short = λ few. (refl, sym known);
                      },
                    )
            ]
      ]

  -- The connection as the protocol sees it, when the system is in a state.
  abbrev pub socket_of : K → Socket → Socket
  socket_of k s = record s { incoming = law.stream k; ending = law.ending k }

  -- `gdox_nbd_socket_read_exact` on a system whose `recv` delivers a stream in pieces, with
  -- interruptions, does what the view of the connection says: with fuel for all bytes and
  -- interruptions it returns, it succeeds exactly if the bytes are there, and then returns them and
  -- leaves the rest of the stream; if it fails, the error code is that of the view.
  pub read_exact-refines :
      (n : ℕ) (k : K) (s : Socket) (error : SocketError)
      → let expected = socket_read_exact n (socket_of k s) in
        (out : ReadExact K) × (read_exact_loop recv
            (suc (length (law.stream k) + law.patience k))
            n
            k
            []
            error
          ≡ some out)
        × (out.done ≡ expected.0)
        × (expected.0 ≡ true
            → (out.output ≡ expected.1) × (law.stream out.system ≡ expected.2.incoming))
        × (expected.0 ≡ false → out.error ≡ expected.2.error)
  unfolding socket_read_exact
  read_exact-refines n k s error =
      let (out, runs, reads) =
        read_exact_loop-ReadsStream (suc (length (law.stream k) + law.patience k)) n k [] error
          (omega arith) (omega arith) in
      let all : n - 0 ≡ n = omega arith in
      elim (Bool-cases (leb n (length (law.stream k)))) [
        | inl there ↦
            let (done, bytes_read, rest) = reads.whole (ground (arith, there)) in
            rw there (
              out,
              runs,
              done,
              (λ e. (
                bytes_read ∙ ap (λ m. take m (law.stream k)) all,
                rest ∙ ap (λ m. drop m (law.stream k)) all,
              )),
              λ e. absurd (ground (arith, e)),
            )
        | inr few ↦
            let (failed, code) = reads.short (ground (arith, few)) in
            rw few (out, runs, failed, (λ e. absurd (ground (arith, e))), λ e. code)
      ]
