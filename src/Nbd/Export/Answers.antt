-- ===== src/Nbd/Export/Answers.antt =====
-- The answers of src/platform/nbd_protocol.c to single requests with their payload.
use mathlib.Core.Path.{subst}
use gdox.Common.{
  if◌then◌else◌, ℕ, ◌+◌, ◌≤◌, ◌≡◌, refl, ◌≢◌, ◌⊎◌, inl, inr, true, false, List, [], ◌∷◌, ◌++◌,
  length, Image, ltb, ◌==◌, Bool-cases, arith,
}
use gdox.Disc.{Disc}
use gdox.Disc.Image.{ServesBytes}
use gdox.Nbd.Wire.{eperm, einval, Request, cmd_write, max_buffer_size, read_is_valid, simple_reply}
use gdox.Nbd.Wire.RoundTrip.{read_is_valid_iff}
use gdox.Nbd.Session.{Server, Session, monotonic_ms, read_exact, and_then, send_simple_reply, ◌>>=◌}
use gdox.Nbd.Session.Transmit.{RequestBuffer, answer, transmit_read, transmit_write, export_length}
use gdox.Nbd.Export.Moves.{Moves-then, socket_read_exact-Moves}
use gdox.Nbd.Export.Replies.{
  is_read, Reply, Sent, Replied, send_simple_reply-Sent, refuse_read-Sent, perform_read-Replied,
}

-- A request of a client with the payload behind it: the bytes to write for a write of no more than
-- the buffer takes, nothing for any other.
pub record Call : Type 0 where
  pub request : Request
  pub payload : List ℕ

abbrev pub HasPayload : Call → Type 0
HasPayload c =
    ((c.request.command ≡ cmd_write)
      × (length c.payload ≡ c.request.length)
      × (c.request.length ≤ max_buffer_size))
    ⊎ ((c.request.command ≢ cmd_write) × (c.payload ≡ []))

module _ {C : Type 0} (Good : Disc C → Type 0) (size : ℕ) (img : Image)
    (serves : ServesBytes Good size img) (server : Server) where
  transmit_read-Replied :
      (r : Request) (buffer : List ℕ) (s : Session C)
      → Good s.disc
      → is_read r ≡ true
      → (r.length ≤ max_buffer_size → r.length ≤ length buffer)
      → 16 + r.length ≤ s.socket.room
      → let out = transmit_read server r buffer s in
        (length out.0.1 ≡ length buffer) × Replied Good size img serves server r s [] out.0.0 out.1
  unfolding transmit_read export_length monotonic_ms
  transmit_read-Replied r buffer s good reads fits room =
      let started = (monotonic_ms server s).0 in
      let later = (monotonic_ms server s).1 in
      rw (serves.count s.disc good) (elim (Bool-cases (read_is_valid r size)) [
        | inl valid ↦ rw valid (
            perform_read-Replied Good size img serves server r started buffer s later refl good
              reads valid (fits ((read_is_valid_iff r size).0 valid).0) room)
        | inr outside ↦ rw outside (
          refl,
          (
            _,
            Reply.outside reads outside refl,
            refuse_read-Sent Good size img serves server r started s later refl good (omega arith),
          ),
        )
      ])

  -- The refusal of a write whose payload was taken.
  read_payload-Sent :
      (r : Request) (reply_error : ℕ) (payload rest : List ℕ) (s : Session C)
      → Good s.disc
      → s.socket.incoming ≡ payload ++ rest
      → 16 ≤ s.socket.room
      → let out =
          (read_exact (length payload) >>= λ (done, bytes).
          and_then done (send_simple_reply reply_error r.handle []))
            s in
        Sent Good s payload (simple_reply reply_error r.handle ++ []) out.0 out.1
  unfolding read_exact
  read_payload-Sent r reply_error payload rest s good next room =
      let (done, bytes, left, moved) = socket_read_exact-Moves payload rest s.socket next in
      let t = (read_exact (length payload) s).1 in
      let replied =
        send_simple_reply-Sent Good size img serves server reply_error r.handle [] t t refl good
          (omega (arith, moved.room)) in
      rw (done, and_then)
        (record {
          all_sent = replied.all_sent;
          moves = Moves-then payload (simple_reply reply_error r.handle ++ []) moved replied.moves;
          good = replied.good;
        })

  transmit_write-Sent :
      (r : Request) (reply_error : ℕ) (payload rest : List ℕ) (s : Session C)
      → Good s.disc
      → s.socket.incoming ≡ payload ++ rest
      → length payload ≡ r.length
      → r.length ≤ max_buffer_size
      → 16 ≤ s.socket.room
      → let out = transmit_write r reply_error s in
        Sent Good s payload (simple_reply reply_error r.handle ++ []) out.0 out.1
  unfolding transmit_write
  transmit_write-Sent r reply_error [] rest s good next fits small room =
      let below : ltb max_buffer_size r.length ≡ false = ground arith in
      let none_left : (r.length == 0) ≡ true = ground arith in
      rw (below, none_left)
        (send_simple_reply-Sent Good size img serves server reply_error r.handle [] s s refl good
          (omega arith))
  transmit_write-Sent r reply_error (b ∷ bs) rest s good next fits small room =
      let below : ltb max_buffer_size r.length ≡ false = ground arith in
      let some_left : (r.length == 0) ≡ false = ground arith in
      let sent = read_payload-Sent r reply_error (b ∷ bs) rest s good next room in
      rw (below, some_left)
        (subst
          (λ n.
            let out =
              (read_exact n >>= λ (done, bytes).
              and_then done (send_simple_reply reply_error r.handle []))
                s in
            Sent Good s (b ∷ bs) (simple_reply reply_error r.handle ++ []) out.0 out.1)
          fits sent)

  -- The answer to a request with its payload behind it.
  pub answer-Replied :
      (c : Call) (buffer : RequestBuffer) (rest : List ℕ) (s : Session C)
      → HasPayload c
      → Good s.disc
      → (c.request.length ≤ max_buffer_size → c.request.length ≤ length buffer.bytes)
      → s.socket.incoming ≡ c.payload ++ rest
      → 16 + c.request.length ≤ s.socket.room
      → let out = answer server c.request buffer s in
        (length out.0.1.bytes ≡ length buffer.bytes)
        × (out.0.1.capacity ≡ buffer.capacity)
        × Replied Good size img serves server c.request s c.payload out.0.0 out.1
  unfolding answer
  answer-Replied c buffer rest s (inl (write, fits, small)) good enough next room =
      let no_read : is_read c.request ≡ false = ground arith in
      let is_write : (c.request.command == cmd_write) ≡ true = ground arith in
      rw (no_read, is_write)
        (
          refl,
          refl,
          (
            _,
            Reply.read_only write refl,
            transmit_write-Sent c.request (if c.request.flags == 0 then eperm else einval) c.payload
                rest s good next fits small (omega arith),
          ),
        )
  answer-Replied c buffer rest s (inr (no_write, empty)) good enough next room =
      let is_write : (c.request.command == cmd_write) ≡ false = ground arith in
      rw (empty) (elim (Bool-cases (is_read c.request)) [
        | inl reads ↦
            let (kept, replied) =
              transmit_read-Replied c.request buffer.bytes s good reads enough room in
            rw reads (kept, refl, replied)
        | inr no_read ↦
            rw (no_read, is_write)
              (
                refl,
                refl,
                (
                  _,
                  Reply.unknown no_read no_write refl,
                  send_simple_reply-Sent Good size img serves server einval c.request.handle [] s s
                      refl good (omega arith),
                ),
              )
      ])
