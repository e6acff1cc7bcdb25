-- ===== src/Tests/Sockets.antt =====
-- The theorems on the connection, at a system that is interrupted and then delivers byte by byte.
use mathlib.Core.Path.{subst, ap}
use gdox.Common.{
  take, suc, zero, ◌++◌, ℕ, ◌+◌, ◌≤◌, ◌<◌, ◌≡◌, refl, true, false, some, List, [], ◌∷◌, length,
  arith,
}
use gdox.Nbd.Socket.Receive.Refine.{socket_of, read_exact-refines}
use gdox.Nbd.Socket.Send.Refine.{sending_of, write_all-refines}
use gdox.Nbd.Socket.{
  Socket, SocketError, connection_reset, other, socket_read_exact, socket_write_all,
}
use gdox.Nbd.Socket.Send.{
  SendResult, wrote, closed, postponed, failing, WriteAll, write_all_loop, Sends,
}
use gdox.Nbd.Socket.Receive.{
  Received, bytes, ended, interrupted, broken, ReadExact, read_exact_loop, Receives,
}

-- The bytes that are left, and the interruptions before them.
abbrev Trickle : Type 0
Trickle = List ℕ × ℕ

abbrev trickle : Trickle → ℕ → Received × Trickle
trickle (left, suc times) n = (interrupted, (left, times))
trickle ([], zero) n = (ended, ([], zero))
trickle (b ∷ left, zero) n = (bytes (b ∷ []), (left, zero))

abbrev received_bytes : Received → List ℕ
received_bytes (bytes bs) = bs
received_bytes received = []

abbrev trickle-Receives : Receives trickle
trickle-Receives = record {
  stream = λ k. k.0;
  ending = λ k. connection_reset;
  patience = λ k. k.1;
  same_ending = λ k n h. refl;
  on_bytes = on_bytes;
  on_end = on_end;
  on_interrupt = on_interrupt;
  on_break = on_break;
}
  where
    on_bytes :
        (k : Trickle) (n : ℕ) (bs : List ℕ)
        → 0 < n
        → (trickle k n).0 ≡ bytes bs
        → (0 < length bs)
          × (length bs ≤ n)
          × (k.0 ≡ bs ++ (trickle k n).1.0)
          × ((trickle k n).1.1 ≤ k.1)
    on_bytes (left, suc times) n bs h e = absurd (ground (arith, e))
    on_bytes ([], zero) n bs h e = absurd (ground (arith, e))
    on_bytes (b ∷ left, zero) n bs h e =
        let same : b ∷ [] ≡ bs = ap received_bytes e in
        subst (λ k. (0 < length k) × (length k ≤ n) × (b ∷ left ≡ k ++ left) × (0 ≤ 0)) same
          (ground arith, omega (arith, h), refl, ground arith)

    on_end :
        (k : Trickle) (n : ℕ)
        → 0 < n
        → (trickle k n).0 ≡ ended
        → (k.0 ≡ []) × (connection_reset ≡ connection_reset)
    on_end (left, suc times) n h e = absurd (ground (arith, e))
    on_end ([], zero) n h e = (refl, refl)
    on_end (b ∷ left, zero) n h e = absurd (ground (arith, e))

    on_interrupt :
        (k : Trickle) (n : ℕ)
        → 0 < n
        → (trickle k n).0 ≡ interrupted
        → ((trickle k n).1.0 ≡ k.0) × ((trickle k n).1.1 < k.1)
    on_interrupt (left, suc times) n h e = (refl, omega arith)
    on_interrupt ([], zero) n h e = absurd (ground (arith, e))
    on_interrupt (b ∷ left, zero) n h e = absurd (ground (arith, e))

    on_break :
        (k : Trickle) (n : ℕ) (code : SocketError)
        → 0 < n
        → (trickle k n).0 ≡ broken code
        → (k.0 ≡ []) × (connection_reset ≡ code)
    on_break (left, suc times) n code h e = absurd (ground (arith, e))
    on_break ([], zero) n code h e = absurd (ground (arith, e))
    on_break (b ∷ left, zero) n code h e = absurd (ground (arith, e))

abbrev idle : Socket
idle = record {
  incoming = [];
  ending = other;
  outgoing = [];
  room = 0;
  refusal = other;
  error = other;
}

abbrev waiting : Trickle
waiting = (7 ∷ 8 ∷ 9 ∷ [], 2)

read_exact-refines_example :
    let expected = socket_read_exact 2 (socket_of trickle trickle-Receives waiting idle) in
    (out : ReadExact Trickle) × (read_exact_loop trickle (suc (3 + 2)) 2 waiting [] other
      ≡ some out)
    × (out.done ≡ expected.0)
    × (expected.0 ≡ true → (out.output ≡ expected.1) × (out.system.0 ≡ expected.2.incoming))
    × (expected.0 ≡ false → out.error ≡ expected.2.error)
read_exact-refines_example = read_exact-refines trickle trickle-Receives 2 waiting idle other

-- What the system has taken, its room, and the interruptions before it takes more.
abbrev Slow : Type 0
Slow = List ℕ × ℕ × ℕ

abbrev slow : Slow → List ℕ → SendResult × Slow
slow (taken, room, suc times) bs = (postponed, (taken, room, times))
slow (taken, zero, zero) bs = (failing other, (taken, zero, zero))
slow (taken, suc room, zero) [] = (wrote 0, (taken, suc room, zero))
slow (taken, suc room, zero) (b ∷ bs) = (wrote 1, (taken ++ (b ∷ []), room, zero))

abbrev sent_bytes : SendResult → ℕ
sent_bytes (wrote n) = n
sent_bytes result = 0

abbrev failure_code : SendResult → SocketError
failure_code (failing code) = code
failure_code result = other

abbrev slow-Sends : Sends slow
slow-Sends = record {
  taken = λ k. k.0;
  room = λ k. k.1;
  refusal = λ k. other;
  patience = λ k. k.2;
  same_refusal = λ k bs h. refl;
  on_wrote = on_wrote;
  on_postpone = on_postpone;
  on_close = on_close;
  on_failure = on_failure;
}
  where
    on_wrote :
        (k : Slow) (bs : List ℕ) (sent : ℕ)
        → 0 < length bs
        → (slow k bs).0 ≡ wrote sent
        → (0 < sent)
          × (sent ≤ length bs)
          × (k.1 ≡ (slow k bs).1.1 + sent)
          × ((slow k bs).1.0 ≡ k.0 ++ take sent bs)
          × ((slow k bs).1.2 ≤ k.2)
    on_wrote (taken, room, suc times) bs sent h e = absurd (ground (arith, e))
    on_wrote (taken, zero, zero) bs sent h e = absurd (ground (arith, e))
    on_wrote (taken, suc room, zero) [] sent h e = absurd (ground (arith, h))
    on_wrote (taken, suc room, zero) (b ∷ bs) sent h e =
        subst
          (λ n.
            (0 < n)
            × (n ≤ suc (length bs))
            × (suc room ≡ room + n)
            × (taken ++ (b ∷ []) ≡ taken ++ take n (b ∷ bs))
            × (0 ≤ 0))
          (ap sent_bytes e) (omega arith, omega arith, omega arith, refl, omega arith)

    on_postpone :
        (k : Slow) (bs : List ℕ)
        → 0 < length bs
        → (slow k bs).0 ≡ postponed
        → ((slow k bs).1.1 ≡ k.1) × ((slow k bs).1.0 ≡ k.0) × ((slow k bs).1.2 < k.2)
    on_postpone (taken, room, suc times) bs h e = (refl, refl, omega arith)
    on_postpone (taken, zero, zero) bs h e = absurd (ground (arith, e))
    on_postpone (taken, suc room, zero) [] h e = absurd (ground (arith, h))
    on_postpone (taken, suc room, zero) (b ∷ bs) h e = absurd (ground (arith, e))

    on_close :
        (k : Slow) (bs : List ℕ)
        → 0 < length bs
        → (slow k bs).0 ≡ closed
        → (k.1 ≡ 0) × ((slow k bs).1.1 ≡ 0) × ((slow k bs).1.0 ≡ k.0) × (other ≡ connection_reset)
    on_close (taken, room, suc times) bs h e = absurd (ground (arith, e))
    on_close (taken, zero, zero) bs h e = absurd (ground (arith, e))
    on_close (taken, suc room, zero) [] h e = absurd (ground (arith, h))
    on_close (taken, suc room, zero) (b ∷ bs) h e = absurd (ground (arith, e))

    on_failure :
        (k : Slow) (bs : List ℕ) (code : SocketError)
        → 0 < length bs
        → (slow k bs).0 ≡ failing code
        → (k.1 ≡ 0) × ((slow k bs).1.1 ≡ 0) × ((slow k bs).1.0 ≡ k.0) × (other ≡ code)
    on_failure (taken, room, suc times) bs code h e = absurd (ground (arith, e))
    on_failure (taken, zero, zero) bs code h e = (refl, refl, refl, ap failure_code e)
    on_failure (taken, suc room, zero) [] code h e = absurd (ground (arith, h))
    on_failure (taken, suc room, zero) (b ∷ bs) code h e = absurd (ground (arith, e))

abbrev filling : Slow
filling = ([], 2, 1)

write_all-refines_example :
    let expected = socket_write_all (7 ∷ 8 ∷ 9 ∷ []) (sending_of slow slow-Sends filling idle) in
    (out : WriteAll Slow) × (write_all_loop slow (suc (3 + 1)) filling (7 ∷ 8 ∷ 9 ∷ []) other
      ≡ some out)
    × (out.done ≡ expected.0)
    × (out.system.0 ≡ expected.1.outgoing)
    × (out.system.1 ≡ expected.1.room)
    × (expected.0 ≡ false → out.error ≡ expected.1.error)
write_all-refines_example = write_all-refines slow slow-Sends filling (7 ∷ 8 ∷ 9 ∷ []) idle other
