-- ===== src/Nbd/Socket/Send/Refine.antt =====
-- The loop over `send` of src/platform/nbd_socket.c against the view of the connection.
use gdox.Common.{
  take-length, ℕ, zero, suc, ◌+◌, ◌-◌, ◌≤◌, ◌<◌, ◌≡◌, refl, sym, ap, ◌∙◌, ◌⊎◌, inl, inr, false,
  some, List, [], ◌∷◌, ◌++◌, append-nil, append_assoc, length, length-take, length-drop, take, drop,
  min, ltb, leb, ◌==◌, Bool-cases, if◌then◌else◌, arith,
}
use gdox.Nbd.Socket.{Socket, SocketError, other, connection_reset, socket_write_all}
use gdox.Nbd.Socket.Receive.{int_max}
use gdox.Nbd.Socket.Send.{
  SendResult, wrote, closed, postponed, failing, WriteAll, write_all_loop, Sends,
}

SendResult-cases :
    (r : SendResult)
    → ((sent : ℕ) × (r ≡ wrote sent))
      ⊎ (r ≡ closed)
      ⊎ (r ≡ postponed)
      ⊎ ((code : SocketError) × (r ≡ failing code))
SendResult-cases (wrote sent) = inl (sent, refl)
SendResult-cases closed = inr (inl refl)
SendResult-cases postponed = inr (inr (inl refl))
SendResult-cases (failing code) = inr (inr (inr (code, refl)))

take-take : (m n : ℕ) (xs : List ℕ) → m ≤ n → take m (take n xs) ≡ take m xs
take-take zero n xs h = refl
take-take (suc m) zero xs h = absurd (omega arith)
take-take (suc m) (suc n) [] h = refl
take-take (suc m) (suc n) (x ∷ xs) h = ap (λ t. x ∷ t) (take-take m n xs (omega arith))

take-split :
    (m n : ℕ) (xs : List ℕ) → m ≤ length xs → take m xs ++ take n (drop m xs) ≡ take (m + n) xs
take-split zero n xs h = ap (λ k. take k xs) (omega arith)
take-split (suc m) n [] h = absurd (omega arith)
take-split (suc m) n (x ∷ xs) h =
    let count : suc (m + n) ≡ suc m + n = omega arith in
    ap (λ t. x ∷ t) (take-split m n xs (omega arith)) ∙ ap (λ k. take k (x ∷ xs)) count

-- What the loop should do with the rest of a message: all of it if there is room, else as much as
-- there is room for.
module _ {K : Type 0} (send : K → List ℕ → SendResult × K) (law : Sends send) where
  record Delivers (k : K) (rest : List ℕ) (out : WriteAll K) : Type 0 where
    done : out.done ≡ leb (length rest) (law.room k)
    taken : law.taken out.system ≡ law.taken k ++ take (min (length rest) (law.room k)) rest
    room : law.room out.system ≡ law.room k - length rest
    error : out.done ≡ false → out.error ≡ law.refusal k

  Delivers-piece :
      (k k' : K) (rest : List ℕ) (sent : ℕ) (out : WriteAll K)
      → sent ≤ length rest
      → law.room k ≡ law.room k' + sent
      → law.taken k' ≡ law.taken k ++ take sent rest
      → law.refusal k' ≡ law.refusal k
      → Delivers k' (drop sent rest) out
      → Delivers k rest out
  Delivers-piece k k' rest sent out fits room taken same later =
      let size = length-drop sent rest in
      let count : sent + min (length (drop sent rest)) (law.room k')
          ≡ min (length rest) (law.room k) =
        omega (arith, size, room, fits) in
      record {
        done = later.done ∙ ground (arith, size, room, fits);
        taken =
            later.taken
            ∙ ap (λ t. t ++ take (min (length (drop sent rest)) (law.room k')) (drop sent rest))
                taken
            ∙ append_assoc (law.taken k) (take sent rest) _
            ∙ ap (λ t. law.taken k ++ t) (take-split sent _ rest fits)
            ∙ ap (λ n. law.taken k ++ take n rest) count;
        room = omega (arith, later.room, size, room, fits);
        error = λ e. later.error e ∙ same;
      }

  -- A message that meets no room is not sent at all.
  Delivers-nothing :
      (k k' : K) (rest : List ℕ) (code : SocketError)
      → (length rest == 0) ≡ false
      → law.room k ≡ 0
      → law.room k' ≡ 0
      → law.taken k' ≡ law.taken k
      → law.refusal k ≡ code
      → Delivers k rest (record { done = false; system = k'; error = code })
  Delivers-nothing k k' rest code more none_left still kept known =
      let nothing : min (length rest) (law.room k) ≡ 0 = omega (arith, none_left) in
      record {
        done = ground (arith, more, none_left);
        taken = kept ∙ rw nothing (sym (append-nil (law.taken k)));
        room = omega (arith, none_left, still);
        error = λ e. sym known;
      }

  write_all_loop-Delivers :
      (fuel : ℕ) (k : K) (rest : List ℕ) (error : SocketError)
      → length rest + law.patience k < fuel
      → (out : WriteAll K) × (write_all_loop send fuel k rest error ≡ some out)
        × Delivers k rest out
  unfolding write_all_loop
  write_all_loop-Delivers zero k rest error enough = absurd (omega (arith, enough))
  write_all_loop-Delivers (suc fuel) k rest error enough =
      let requested = if ltb int_max (length rest) then int_max else length rest in
      let offered = take requested rest in
      let k' = (send k offered).1 in
      elim (Bool-cases (length rest == 0)) [
        | inl empty ↦
            let nothing : length rest ≡ 0 = ground (arith, empty) in
            let none_sent : min (length rest) (law.room k) ≡ 0 = omega (arith, nothing) in
            rw (write_all_loop, empty)
              (
                _,
                refl,
                record {
                  done = ground (arith, nothing);
                  taken = rw none_sent (sym (append-nil (law.taken k)));
                  room = omega (arith, nothing);
                  error = λ e. absurd (ground (arith, e));
                },
              )
        | inr more ↦
            let most : requested ≤ length rest = ground arith in
            let some_bytes : 0 < requested = ground (arith, more) in
            let size : length offered ≡ requested =
              omega (arith, length-take requested rest, most) in
            let asks : 0 < length offered = omega (arith, size, some_bytes) in
            let same = law.same_refusal k offered asks in
            elim (SendResult-cases (send k offered).0) [
              | inl (sent, e) ↦
                  let (moved, few, room, taken, calm) = law.on_wrote k offered sent asks e in
                  let within : sent ≤ requested = omega (arith, few, size) in
                  let (out, runs, later) =
                    write_all_loop-Delivers fuel k' (drop sent rest) error
                      (omega (arith, length-drop sent rest, moved, within, most, calm, enough)) in
                  rw (write_all_loop, more, e)
                    (
                      out,
                      runs,
                      Delivers-piece k k' rest sent out (omega (arith, within, most)) room
                          (taken
                            ∙ ap (λ t. law.taken k ++ t) (take-take sent requested rest within))
                          same later,
                    )
              | inr (inl e) ↦
                  let (none_left, still, kept, known) = law.on_close k offered asks e in
                  rw (write_all_loop, more, e)
                    (
                      _,
                      refl,
                      Delivers-nothing k k' rest connection_reset more none_left still kept known,
                    )
              | inr (inr (inl e)) ↦
                  let (room, taken, calmer) = law.on_postpone k offered asks e in
                  let (out, runs, later) =
                    write_all_loop-Delivers fuel k' rest other (omega (arith, calmer, enough)) in
                  rw (write_all_loop, more, e)
                    (
                      out,
                      runs,
                      Delivers-piece k k' rest 0 out (omega arith) (omega (arith, room))
                          (taken ∙ sym (append-nil (law.taken k))) same later,
                    )
              | inr (inr (inr (code, e))) ↦
                  let (none_left, still, kept, known) = law.on_failure k offered code asks e in
                  rw (write_all_loop, more, e)
                    (_, refl, Delivers-nothing k k' rest code more none_left still kept known)
            ]
      ]

  -- The connection as the protocol sees it, when the system is in a state.
  abbrev pub sending_of : K → Socket → Socket
  sending_of k s = record s { outgoing = law.taken k; room = law.room k; refusal = law.refusal k }

  -- `gdox_nbd_socket_write_all` on a system whose `send` takes some of the bytes at a time, with
  -- interruptions, does what the view of the connection says: with fuel for all bytes and
  -- interruptions it returns, it succeeds exactly if there is room for the message, the system has
  -- then taken the message, or else as much of it as there was room for, and the error code of a
  -- failure is that of the view.
  pub write_all-refines :
      (k : K) (message : List ℕ) (s : Socket) (error : SocketError)
      → let expected = socket_write_all message (sending_of k s) in
        (out : WriteAll K) × (write_all_loop send
            (suc (length message + law.patience k))
            k
            message
            error
          ≡ some out)
        × (out.done ≡ expected.0)
        × (law.taken out.system ≡ expected.1.outgoing)
        × (law.room out.system ≡ expected.1.room)
        × (expected.0 ≡ false → out.error ≡ expected.1.error)
  unfolding socket_write_all
  write_all-refines k message s error =
      let (out, runs, delivers) =
        write_all_loop-Delivers (suc (length message + law.patience k)) k message error
          (omega arith) in
      elim (Bool-cases (leb (length message) (law.room k))) [
        | inl fits ↦
            let all : min (length message) (law.room k) ≡ length message = ground (arith, fits) in
            rw fits (
              out,
              runs,
              delivers.done ∙ fits,
              delivers.taken
                  ∙ ap (λ n. law.taken k ++ take n message) all
                  ∙ ap (λ t. law.taken k ++ t) (take-length message),
              delivers.room,
              λ e. absurd (ground (arith, e)),
            )
        | inr few ↦
            let part : min (length message) (law.room k) ≡ law.room k = ground (arith, few) in
            rw few (
              out,
              runs,
              delivers.done ∙ few,
              delivers.taken ∙ ap (λ n. law.taken k ++ take n message) part,
              ground (arith, few, delivers.room),
              λ e. delivers.error (delivers.done ∙ few),
            )
      ]
