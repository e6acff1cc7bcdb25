-- ===== src/Nbd/Export/Replies.antt =====
-- The replies that an export of an image may give to a request, and those of
-- src/platform/nbd_protocol.c.
use mathlib.Core.Path.{subst}
use gdox.Common.{
  ℕ, ◌+◌, ◌≤◌, ◌≡◌, refl, sym, ap, ◌∙◌, ◌≢◌, inl, inr, Bool, true, false, ◌&&◌, List, [], ◌++◌,
  length, length-append, length-slice, take, length-take, drop, length-drop, Image, slice, ◌==◌,
  if◌then◌else◌, arith,
}
use gdox.Fault.{Outcome, ok, failed, failed-ne-ok}
use gdox.Disc.{Disc}
use gdox.Disc.Dispatch.{disc_read_buffer}
use gdox.Disc.Image.{ServesBytes}
use gdox.Nbd.Wire.{Request, cmd_read, cmd_write, eperm, eio, einval, read_is_valid, simple_reply}
use gdox.Nbd.Wire.RoundTrip.{read_is_valid_iff}
use gdox.Nbd.Telemetry.{ReadEvent}
use gdox.Nbd.Session.{
  Server, Session, monotonic_ms, record_read, record_runtime_error, send_simple_reply,
}
use gdox.Nbd.Session.Transmit.{
  elapsed, reply_to_read, refused_event, performed_event, report_read_failure, refuse_read,
  perform_read, physical_stats, read_disc_request,
}
use gdox.Nbd.Export.Moves.{Moves, send_simple_reply-Moves}
use gdox.Nbd.Export.Reading.{ReadResult, read_disc_request_lem}

-- The requests that read.
abbrev pub is_read : Request → Bool
is_read r = r.command == cmd_read && r.flags == 0

module _ {C : Type 0} (Good : Disc C → Type 0) (size : ℕ) (img : Image) where
  -- A reply that the export may give: the bytes of the image to a read inside it, or an input/output
  -- error, but only if its disc could not be read there; an error to anything else.
  pub data Reply (r : Request) (sent : List ℕ) : Type 0 where
    content :
        is_read r ≡ true
        → read_is_valid r size ≡ true
        → sent ≡ simple_reply 0 r.handle ++ slice img r.offset r.length
        → Reply r sent
    unreadable :
        is_read r ≡ true
        → read_is_valid r size ≡ true
        → (d : Disc C) (output : List ℕ) → Good d
        → length output ≡ r.length
        → (disc_read_buffer d r.offset output).0 ≢ ok
        → sent ≡ simple_reply eio r.handle ++ []
        → Reply r sent
    outside :
        is_read r ≡ true
        → read_is_valid r size ≡ false
        → sent ≡ simple_reply einval r.handle ++ []
        → Reply r sent
    read_only :
        r.command ≡ cmd_write
        → sent ≡ simple_reply (if r.flags == 0 then eperm else einval) r.handle ++ []
        → Reply r sent
    unknown :
        is_read r ≡ false
        → r.command ≢ cmd_write
        → sent ≡ simple_reply einval r.handle ++ []
        → Reply r sent

-- What is true after a reply: it was sent whole, the payload taken, and the disc is still good.
pub record Sent {C : Type 0} (Good : Disc C → Type 0) (s : Session C) (taken sent : List ℕ)
    (done : Bool) (s' : Session C) : Type 0 where
  pub all_sent : done ≡ true
  pub moves : Moves s.socket s'.socket taken sent
  pub good : Good s'.disc

record_runtime_error-keeps :
    {C : Type 0} (server : Server) (s : Session C)
    → ((record_runtime_error server s).1.socket ≡ s.socket)
      × ((record_runtime_error server s).1.disc ≡ s.disc)
unfolding record_runtime_error
record_runtime_error-keeps server s = (ground arith, ground arith)

record_read-keeps :
    {C : Type 0} (server : Server) (e : ReadEvent) (s : Session C)
    → ((record_read server e s).1.socket ≡ s.socket) × ((record_read server e s).1.disc ≡ s.disc)
unfolding record_read
record_read-keeps server e s = (ground arith, ground arith)

module _ {C : Type 0} (Good : Disc C → Type 0) (size : ℕ) (img : Image)
    (serves : ServesBytes Good size img) (server : Server) where
  -- The request was answered by a reply that the export may give.
  abbrev pub Replied : Request → Session C → List ℕ → Bool → Session C → Type 0
  Replied r s taken done s' =
      (sent : List ℕ) × Reply Good size img r sent × Sent Good s taken sent done s'

  -- A simple reply sent from a state that has the connection of an earlier one.
  pub send_simple_reply-Sent :
      (reply_error handle : ℕ) (bytes : List ℕ) (s t : Session C)
      → t.socket ≡ s.socket
      → Good t.disc
      → 16 + length bytes ≤ s.socket.room
      → let out = send_simple_reply reply_error handle bytes t in
        Sent Good s [] (simple_reply reply_error handle ++ bytes) out.0 out.1
  send_simple_reply-Sent reply_error handle bytes s t here good room =
      let (sent, moves, same) = send_simple_reply-Moves reply_error handle bytes t (rw here room) in
      let out = send_simple_reply reply_error handle bytes t in
      record {
        all_sent = sent;
        moves =
            subst (λ k. Moves k out.1.socket [] (simple_reply reply_error handle ++ bytes)) here
              moves;
        good = rw same good;
      }

  pub report_read_failure-Sent :
      (r : Request) (s t : Session C)
      → t.socket ≡ s.socket
      → Good t.disc
      → 16 ≤ s.socket.room
      → let out = report_read_failure server r t in
        Sent Good s [] (simple_reply eio r.handle ++ []) out.0 out.1
  unfolding report_read_failure
  report_read_failure-Sent r s t here good room =
      let (socket, disc) = record_runtime_error-keeps server t in
      send_simple_reply-Sent eio r.handle [] s (record_runtime_error server t).1 (socket ∙ here)
        (rw disc good) room

  pub refuse_read-Sent :
      (r : Request) (started : ℕ) (s t : Session C)
      → t.socket ≡ s.socket
      → Good t.disc
      → 16 ≤ s.socket.room
      → let out = refuse_read server r started t in
        Sent Good s [] (simple_reply einval r.handle ++ []) out.0 out.1
  unfolding refuse_read monotonic_ms
  refuse_read-Sent r started s t here good room =
      let later = (monotonic_ms server t).1 in
      let event = refused_event r (elapsed started (monotonic_ms server t).0) in
      let (socket, disc) = record_read-keeps server event later in
      send_simple_reply-Sent einval r.handle [] s (record_read server event later).1 (socket ∙ here)
        (rw disc good) room

  -- The reply to a read that was tried, sent from a state that has the connection of an earlier one.
  reply_to_read-Replied :
      (r : Request) (result : Outcome) (bytes : List ℕ) (d : Disc C) (output : List ℕ)
      (s t : Session C)
      → t.socket ≡ s.socket
      → Good t.disc
      → Good d
      → is_read r ≡ true
      → read_is_valid r size ≡ true
      → length output ≡ r.length
      → 16 + r.length ≤ s.socket.room
      → ReadResult Good size img serves d r.offset output (result, bytes)
      → let out = reply_to_read server r result bytes t in Replied r s [] out.0 out.1
  unfolding reply_to_read
  reply_to_read-Replied r ok bytes d output s t here good was_good reads valid fits room
        (inl (e, all)) =
      let content : bytes ≡ slice img r.offset r.length = all ∙ ap (slice img r.offset) fits in
      (
        _,
        Reply.content reads valid (ap (λ b. simple_reply 0 r.handle ++ b) content),
        send_simple_reply-Sent 0 r.handle bytes s t here good
            (omega (arith, ap length content, length-slice img r.offset r.length)),
      )
  reply_to_read-Replied r ok bytes d output s t here good was_good reads valid fits room
        (inr (code, e, h)) =
      absurd (failed-ne-ok code (sym e))
  reply_to_read-Replied r (failed code) bytes d output s t here good was_good reads valid fits room
        (inl (e, all)) =
      absurd (failed-ne-ok code e)
  reply_to_read-Replied r (failed code) bytes d output s t here good was_good reads valid fits room
        (inr (c, e, h)) =
      (
        _,
        Reply.unreadable reads valid d output was_good fits h refl,
        report_read_failure-Sent r s t here good (omega arith),
      )

  -- A read inside the export, tried from a state that has the connection of an earlier one.
  pub perform_read-Replied :
      (r : Request) (started : ℕ) (buffer : List ℕ) (s t : Session C)
      → t.socket ≡ s.socket
      → Good t.disc
      → is_read r ≡ true
      → read_is_valid r size ≡ true
      → r.length ≤ length buffer
      → 16 + r.length ≤ s.socket.room
      → let out = perform_read server r started buffer t in
        (length out.0.1 ≡ length buffer) × Replied r s [] out.0.0 out.1
  unfolding perform_read physical_stats monotonic_ms
  perform_read-Replied r started buffer s t here good reads valid fits room =
      let output = take r.length buffer in
      let size_of : length output ≡ r.length = omega (arith, length-take r.length buffer) in
      let inside = (read_is_valid_iff r size).0 valid in
      let (good', socket', same, result) =
        read_disc_request_lem Good size img serves r.offset output t good (omega arith) in
      let out = read_disc_request r.offset output t in
      let later = (monotonic_ms server out.1).1 in
      let event =
        performed_event r out.0.0 (physical_stats t).0 (physical_stats out.1).0
          (elapsed started (monotonic_ms server out.1).0) in
      let (socket, disc) = record_read-keeps server event later in
      (
        omega (arith, length-append out.0.1 (drop r.length buffer), length-drop r.length buffer),
        reply_to_read-Replied r out.0.0 out.0.1 t.disc output s (record_read server event later).1
            (socket ∙ socket' ∙ here) (rw disc good') good reads valid size_of room result,
      )
