-- ===== src/Nbd/Export/Service.antt =====
-- A whole session of a client that names the export, from the greeting to the disconnection.
use gdox.Common.{
  ℕ, ◌+◌, ◌/◌, ◌%◌, ◌≤◌, ◌≡◌, sym, ap, ◌∙◌, ◌⊎◌, true, not, some, List, ◌++◌, append-nil,
  append_assoc, length, Image, ◌==◌, arith,
}
use gdox.Disc.{Disc}
use gdox.Disc.Image.{ServesBytes}
use gdox.Disc.Dispatch.{disc_length}
use gdox.Nbd.Export.Answers.{Call}
use gdox.Nbd.Wire.{
  Request, cmd_disc, opt_export_name, max_option_size, greeting, export_response, put_be_u32,
}
use gdox.Nbd.Wire.RoundTrip.{Fits, request_message, parse_client_flags_iff}
use gdox.Nbd.Session.{Server, Session, read_exact, write_all, ◌>>=◌}
use gdox.Nbd.Session.Negotiate.{negotiate, handle_flags, protocol_handle}
use gdox.Nbd.Export.Moves.{read_exact-Moves, write_all-Moves}
use gdox.Nbd.Export.Ending.{transmit-Answered}
use gdox.Nbd.Export.Conversation.{AllMayCall, messages, reply_room, Answered, HasMemory}
use gdox.Nbd.Export.Negotiation.{
  option_message, padding, length-reply, length-greeting, length-put_be_u32, small_flags,
  negotiate-Moves,
}

module _ {C : Type 0} (Good : Disc C → Type 0) (size : ℕ) (img : Image)
    (serves : ServesBytes Good size img) (server : Server) (memory : HasMemory server) where
  handle_flags-serves :
      (flags : ℕ) (calls : List Call) (last : Request) (rest : List ℕ) (s : Session C)
      → server.can_clear_timeouts ≡ true
      → length server.export_name ≤ max_option_size
      → server.malloc (length server.export_name) ≡ true
      → AllMayCall calls
      → Fits last
      → last.command ≡ cmd_disc
      → Good s.disc
      → s.socket.incoming
        ≡ option_message opt_export_name server.export_name
          ++ (messages calls ++ (request_message last ++ rest))
      → 134 + reply_room calls ≤ s.socket.room
      → let out = handle_flags server flags s in
        (out.0 ≡ some true)
        × ((sent : List ℕ) × Answered Good size img calls sent
            × (out.1.socket.outgoing
                ≡ s.socket.outgoing
                  ++ ((export_response size server.export_flags
                        ++ padding (not (flags / 2 % 2 == 0)))
                      ++ sent)))
        × Good out.1.disc
  unfolding handle_flags
  handle_flags-serves flags calls last rest s clear fits name_memory may last_fits ends good next
        room =
      let no_zeroes = not (flags / 2 % 2 == 0) in
      let (agreed, left, same, moved) =
        negotiate-Moves server no_zeroes (messages calls ++ (request_message last ++ rest)) s fits
          name_memory next (omega (arith, room)) in
      let t = (negotiate server no_zeroes s).1 in
      let reply = export_response (disc_length s.disc) server.export_flags ++ padding no_zeroes in
      let size' = length-reply (disc_length s.disc) server.export_flags no_zeroes in
      let (ended, (sent, answered, moved'), good') =
        transmit-Answered Good size img serves server memory calls last rest t may last_fits ends
          (rw same good) left (omega (arith, moved.room, size', room)) in
      let counted = serves.count s.disc good in
      rw (◌>>=◌, agreed)
        (simp clear (
          ended,
          (
            sent,
            answered,
            moved'.outgoing
                ∙ ap (λ x. x ++ sent) moved.outgoing
                ∙ append_assoc s.socket.outgoing reply sent
                ∙ ap
                    (λ n.
                      s.socket.outgoing
                      ++ ((export_response n server.export_flags ++ padding no_zeroes) ++ sent))
                    counted,
          ),
          good',
        ))

  -- A client of an export of an image that greets with the fixed newstyle flags, asks for the export
  -- by its name, sends any number of requests, each with its payload, of at most
  -- 32 MiB, if it writes, and then disconnects, is served to the end: whatever the disc, the clock and the statistics do, the session
  -- ends in order, and what the server has sent is the greeting, the length of the image with the
  -- export's flags, and for each request in turn a reply that the image allows. For this the socket
  -- must be set up, the memory must be there, and the client must take what it is sent.
  pub protocol_handle-serves :
      (flags : ℕ) (calls : List Call) (last : Request) (rest : List ℕ) (s : Session C)
      → (flags ≡ 1) ⊎ (flags ≡ 3)
      → server.can_configure ≡ true
      → server.can_clear_timeouts ≡ true
      → length server.export_name ≤ max_option_size
      → server.malloc (length server.export_name) ≡ true
      → AllMayCall calls
      → Fits last
      → last.command ≡ cmd_disc
      → Good s.disc
      → s.socket.incoming
        ≡ put_be_u32 flags
          ++ (option_message opt_export_name server.export_name
              ++ (messages calls ++ (request_message last ++ rest)))
      → 152 + reply_room calls ≤ s.socket.room
      → let out = protocol_handle server s in
        (out.0 ≡ some true)
        × ((sent : List ℕ) × Answered Good size img calls sent
            × (out.1.socket.outgoing
                ≡ s.socket.outgoing
                  ++ (greeting
                      ++ ((export_response size server.export_flags
                            ++ padding (not (flags / 2 % 2 == 0)))
                          ++ sent))))
        × Good out.1.disc
  unfolding protocol_handle
  protocol_handle-serves flags calls last rest s known configured clear fits name_memory may
        last_fits ends good next room =
      let after =
        option_message opt_export_name server.export_name
        ++ (messages calls ++ (request_message last ++ rest)) in
      let (greeted, moved, same) =
        write_all-Moves greeting s (omega (arith, length-greeting, room)) in
      let t = (write_all greeting s).1 in
      let (got, bytes, left, same', moved') =
        read_exact-Moves 4 (put_be_u32 flags) after t (length-put_be_u32 flags)
          (sym moved.incoming ∙ next) in
      let parsed = (parse_client_flags_iff flags (small_flags flags known)).1 known in
      let u = (read_exact 4 t).1 in
      let (ended, (sent, answered, outgoing), good') =
        handle_flags-serves flags calls last rest u clear fits name_memory may last_fits ends
          (rw (same', same) good) left
          (omega (arith, moved.room, moved'.room, length-greeting, room)) in
      let reply =
        (export_response size server.export_flags ++ padding (not (flags / 2 % 2 == 0))) ++ sent in
      rw (configured, ◌>>=◌, greeted, ◌>>=◌, got, bytes, parsed)
        (
          ended,
          (
            sent,
            answered,
            outgoing
                ∙ ap (λ x. x ++ reply)
                    (moved'.outgoing ∙ append-nil t.socket.outgoing ∙ moved.outgoing)
                ∙ append_assoc s.socket.outgoing greeting reply,
          ),
          good',
        )
