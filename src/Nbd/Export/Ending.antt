-- ===== src/Nbd/Export/Ending.antt =====
-- How `transmit` in src/platform/nbd_protocol.c ends behind the requests of a client.
use mathlib.Core.Path.{subst}
use gdox.Common.{
  none, append-nil, ℕ, ◌≤◌, ◌≡◌, refl, sym, ◌∙◌, true, false, some, List, [], ◌++◌, length, Image,
  ◌==◌, arith,
}
use gdox.Disc.{Disc}
use gdox.Disc.Image.{ServesBytes}
use gdox.Nbd.Wire.{parse_request, Request, request_bytes, cmd_disc}
use gdox.Nbd.Wire.RoundTrip.{Fits, request_message, parse_request-message}
use gdox.Nbd.Session.{◌>>=◌, Server, Session, read_exact}
use gdox.Nbd.Session.Transmit.{transmit_loop, transmit}
use gdox.Nbd.Export.Moves.{read_exact-Moves, append-cancel, Moves, Moves-trans}
use gdox.Nbd.Export.Answers.{Call}
use gdox.Nbd.Socket.{protocol_error}
use gdox.Nbd.Session.{set_error}
use gdox.Nbd.Session.Transmit.{transmit}
use gdox.Nbd.Export.Conversation.{
  messages, AllMayCall, reply_room, Answered, HasMemory, result_after, transmit-AfterCalls,
  length-request_message,
}

module _ {C : Type 0} (Good : Disc C → Type 0) (size : ℕ) (img : Image)
    (serves : ServesBytes Good size img) (server : Server) (memory : HasMemory server) where
  -- A client of an export of an image that sends any number of requests, each with its payload, of at
  -- most 32 MiB, if it writes, and then disconnects, is served to the end: whatever the disc and the statistics do, the
  -- server takes every request, sends for each in turn a reply that the image allows, and ends in
  -- order, if `realloc` has the memory for the buffers and the client takes the replies.
  pub transmit-Answered :
      (calls : List Call) (last : Request) (rest : List ℕ) (s : Session C)
      → AllMayCall calls
      → Fits last
      → last.command ≡ cmd_disc
      → Good s.disc
      → s.socket.incoming ≡ messages calls ++ (request_message last ++ rest)
      → reply_room calls ≤ s.socket.room
      → let out = transmit server s in
        (out.0 ≡ some true)
        × ((sent : List ℕ) × Answered Good size img calls sent
            × Moves s.socket out.1.socket (messages calls ++ request_message last) sent)
        × Good out.1.disc
  unfolding transmit transmit_loop
  transmit-Answered calls last rest s may fits ends good next room =
      let after =
        transmit-AfterCalls Good size img serves server memory calls (request_message last ++ rest)
          s may good next room in
      let t = after.state in
      let left =
        append-cancel (messages calls) t.socket.incoming (request_message last ++ rest)
          (sym after.moves.incoming ∙ next) in
      let (done, bytes, left', same, moved) =
        read_exact-Moves request_bytes (request_message last) rest t (length-request_message last)
          left in
      let parsed = parse_request-message last fits in
      let disc : (last.command == cmd_disc) ≡ true = ground arith in
      let moves =
        Moves-trans (messages calls) after.sent (request_message last) [] after.moves moved in
      rw (after.runs) (
        rw (◌>>=◌, done, bytes, parsed, disc)
          (
            refl,
            (
              after.sent,
              after.answered,
              subst
                  (λ k.
                    Moves s.socket (read_exact request_bytes t).1.socket
                      (messages calls ++ request_message last) k)
                  (append-nil after.sent) moves,
            ),
            rw same after.good,
          ))

  -- A client that sends requests as above and then a message of a request's size that is none is
  -- answered up to that message, and the connection's error is set; but the session counts as ended in
  -- order exactly if at least one request was answered before.
  pub transmit-malformed :
      (calls : List Call) (message rest : List ℕ) (s : Session C)
      → AllMayCall calls
      → length message ≡ request_bytes
      → parse_request message ≡ none
      → Good s.disc
      → s.socket.incoming ≡ messages calls ++ (message ++ rest)
      → reply_room calls ≤ s.socket.room
      → let out = transmit server s in
        (out.0 ≡ some (result_after false calls))
        × (out.1.socket.error ≡ protocol_error)
        × ((sent : List ℕ) × Answered Good size img calls sent
            × (out.1.socket.outgoing ≡ s.socket.outgoing ++ sent))
  unfolding transmit transmit_loop set_error
  transmit-malformed calls message rest s may whole bad good next room =
      let after =
        transmit-AfterCalls Good size img serves server memory calls (message ++ rest) s may good
          next room in
      let t = after.state in
      let left =
        append-cancel (messages calls) t.socket.incoming (message ++ rest)
          (sym after.moves.incoming ∙ next) in
      let (done, bytes, left', same, moved) =
        read_exact-Moves request_bytes message rest t whole left in
      let kept = moved.outgoing ∙ append-nil t.socket.outgoing in
      rw (after.runs) (
        rw (◌>>=◌, done, bytes, bad)
          (refl, refl, (after.sent, after.answered, kept ∙ after.moves.outgoing)))
