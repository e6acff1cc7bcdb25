-- ===== src/Nbd/Session/Total.antt =====
-- The end of the loops of src/platform/nbd_protocol.c.
use gdox.Nbd.Session.Negotiate.Guard.{read_option_request_lem, answer_option-keeps}
use gdox.Common.{
  not, ◌/◌, ◌%◌, ℕ, zero, suc, ◌+◌, ◌≤◌, ◌<◌, ◌≡◌, refl, ap, inl, inr, Bool, true, false, none,
  some, is_some, [], ◌++◌, length, length-append, ◌==◌, Bool-cases, Option-cases, arith,
}
use gdox.Nbd.Wire.{
  greeting, parse_client_flags, Request, request_bytes, cmd_disc, parse_request, opt_abort,
  opt_export_name,
}
use gdox.Nbd.Session.{Server, Session, pure, ◌>>=◌, read_exact, set_error, write_all}
use gdox.Nbd.Session.Transmit.{
  RequestBuffer, transmit_write, reserve_request_buffer, answer, transmit_loop, transmit,
}
use gdox.Nbd.Session.Negotiate.{
  OptionRequest, read_option_payload, read_option_request, answer_option, negotiate_loop, negotiate,
  handle_flags, protocol_handle,
}
use gdox.Nbd.Session.Progress.{
  Takes-shorter, read_exact-Takes, read_exact-takes_all, send_simple_reply-keeps,
  transmit_read-keeps,
}

read_exact-shorter :
    {C : Type 0} (n : ℕ) (s : Session C)
    → length (read_exact n s).1.socket.incoming ≤ length s.socket.incoming
read_exact-shorter n s = Takes-shorter (read_exact-Takes n s)

read_exact-length :
    {C : Type 0} (n : ℕ) (s : Session C)
    → (read_exact n s).0.0 ≡ true
    → n + length (read_exact n s).1.socket.incoming ≡ length s.socket.incoming
read_exact-length n s h =
    let (size, whole) = read_exact-takes_all n s h in
    omega (
      arith,
      size,
      ap length whole,
      length-append (read_exact n s).0.1 (read_exact n s).1.socket.incoming,
    )

module _ {C : Type 0} (server : Server) where
  transmit_write-shorter :
      (request : Request) (e : ℕ) (s : Session C)
      → length (transmit_write request e s).1.socket.incoming ≤ length s.socket.incoming
  unfolding transmit_write set_error
  transmit_write-shorter request e s =
      let t = (read_exact request.length s).1 in
      let taken = read_exact-shorter request.length s in
      let kept = ap length (send_simple_reply-keeps e request.handle [] t) in
      let kept' = ap length (send_simple_reply-keeps e request.handle [] s) in
      ground (arith, taken, kept, kept')

  answer-shorter :
      (request : Request) (buffer : RequestBuffer) (s : Session C)
      → length (answer server request buffer s).1.socket.incoming ≤ length s.socket.incoming
  unfolding answer
  answer-shorter request buffer s =
      grind (arith, transmit_write-shorter, transmit_read-keeps, send_simple_reply-keeps)

  reserve_request_buffer-keeps :
      (buffer : RequestBuffer) (n : ℕ) (s : Session C)
      → (reserve_request_buffer server buffer n s).1.socket.incoming ≡ s.socket.incoming
  unfolding reserve_request_buffer set_error
  reserve_request_buffer-keeps buffer n s = ground arith

  -- The rest of a round of the loop, for a loop that ends behind it.
  answered_some :
      (fuel : ℕ) (result : Bool) (buffer : RequestBuffer) (request : Request) (s : Session C)
      → ((b : RequestBuffer) (t : Session C)
          → length t.socket.incoming < fuel
          → is_some (transmit_loop server fuel true b t).0 ≡ true)
      → length s.socket.incoming < fuel
      → is_some
          ((reserve_request_buffer server buffer request.length >>= λ reserved. elim reserved [
            | none ↦ pure (some result)
            | some room ↦ answer server request room >>= λ (sent, left). elim sent [
              | true ↦ transmit_loop server fuel true left
              | false ↦ pure (some false)
            ]
          ])
            s).0
        ≡ true
  answered_some fuel result buffer request s later enough =
      let kept = ap length (reserve_request_buffer-keeps buffer request.length s) in
      let t = (reserve_request_buffer server buffer request.length s).1 in
      elim (Option-cases (reserve_request_buffer server buffer request.length s).0) [
        | inl refused ↦ rw (◌>>=◌, refused) refl
        | inr (room, given) ↦
            rw (◌>>=◌, given)
              (elim (Bool-cases (answer server request room t).0.0) [
                | inr failed ↦ rw (◌>>=◌, failed) refl
                | inl sent ↦
                    rw (◌>>=◌, sent)
                      (later (answer server request room t).0.1 (answer server request room t).1
                        (omega (arith, kept, enough, answer-shorter request room t)))
              ])
      ]

  transmit_loop-some :
      (fuel : ℕ) (result : Bool) (buffer : RequestBuffer) (s : Session C)
      → length s.socket.incoming < fuel
      → is_some (transmit_loop server fuel result buffer s).0 ≡ true
  unfolding transmit_loop
  transmit_loop-some zero result buffer s enough = absurd (omega (arith, enough))
  transmit_loop-some (suc fuel) result buffer s enough =
      elim (Bool-cases (read_exact request_bytes s).0.0) [
        | inr ended ↦ rw (◌>>=◌, ended) refl
        | inl got ↦
            let t = (read_exact request_bytes s).1 in
            let shorter = read_exact-length request_bytes s got in
            rw (◌>>=◌, got)
              (elim (Option-cases (parse_request (read_exact request_bytes s).0.1)) [
                | inl bad ↦ rw bad refl
                | inr (request, parsed) ↦
                    rw parsed (elim (Bool-cases (request.command == cmd_disc)) [
                      | inl ends ↦ rw ends refl
                      | inr stays ↦ rw stays (
                          answered_some fuel result buffer request t (transmit_loop-some fuel true)
                            (omega (arith, shorter, enough)))
                    ])
              ])
      ]

  -- The transmission ends, with a result, whatever the client sends and the disc does.
  transmit-some : (s : Session C) → is_some (transmit server s).0 ≡ true
  unfolding transmit
  transmit-some s =
      transmit_loop-some (suc (length s.socket.incoming)) false
        (record { bytes = []; capacity = 0 }) s (omega arith)

  read_option_payload-shorter :
      (option n : ℕ) (s : Session C)
      → length (read_option_payload server option n s).1.socket.incoming ≤ length s.socket.incoming
  unfolding read_option_payload set_error
  read_option_payload-shorter option n s =
      let taken = read_exact-shorter n s in ground (arith, taken)

  -- An option that was read has taken its header.
  read_option_request-shorter :
      (request : OptionRequest) (s : Session C)
      → (read_option_request server s).0 ≡ some request
      → length (read_option_request server s).1.socket.incoming < length s.socket.incoming
  read_option_request-shorter request s got =
      let message = read_option_request_lem server request s got in
      let after = (read_option_request server s).1.socket.incoming in
      omega (
        arith,
        message.size,
        ap length message.taken,
        length-append message.header (request.payload ++ after),
        length-append request.payload after,
      )

  negotiate_loop-some :
      (fuel : ℕ) (no_zeroes : Bool) (s : Session C)
      → length s.socket.incoming < fuel
      → is_some (negotiate_loop server fuel no_zeroes s).0 ≡ true
  unfolding negotiate_loop
  negotiate_loop-some zero no_zeroes s enough = absurd (omega (arith, enough))
  negotiate_loop-some (suc fuel) no_zeroes s enough =
      elim (Option-cases (read_option_request server s).0) [
        | inl ended ↦ rw (◌>>=◌, ended) refl
        | inr (request, got) ↦
            let t = (read_option_request server s).1 in
            let shorter = read_option_request-shorter request s got in
            let kept = ap length (answer_option-keeps server request t) in
            let later =
              negotiate_loop-some fuel no_zeroes (answer_option server request t).1
                (omega (arith, shorter, kept, enough)) in
            rw (◌>>=◌, got)
              (elim (Bool-cases (request.option == opt_abort)) [
                | inl aborts ↦ rw aborts refl
                | inr goes ↦ rw goes (elim (Bool-cases (request.option == opt_export_name)) [
                  | inl names ↦ rw names refl
                  | inr asks ↦ rw asks (elim (Bool-cases (answer_option server request t).0.1) [
                    | inl ready ↦ rw (◌>>=◌, ready) refl
                    | inr again ↦ (elim (Bool-cases (answer_option server request t).0.0) [
                      | inr failed ↦ rw (◌>>=◌, again, failed) refl
                      | inl answered ↦ rw (◌>>=◌, again, answered) later
                    ])
                  ])
                ])
              ])
      ]

  -- The negotiation ends, with a result, whatever the client sends.
  negotiate-some :
      (no_zeroes : Bool) (s : Session C) → is_some (negotiate server no_zeroes s).0 ≡ true
  unfolding negotiate
  negotiate-some no_zeroes s =
      negotiate_loop-some (suc (length s.socket.incoming)) no_zeroes s (omega arith)

  handle_flags-some : (flags : ℕ) (s : Session C) → is_some (handle_flags server flags s).0 ≡ true
  unfolding handle_flags
  handle_flags-some flags s =
      let no_zeroes = not (flags / 2 % 2 == 0) in
      let agreed = negotiate-some no_zeroes s in
      let served = transmit-some (negotiate server no_zeroes s).1 in ground (arith, agreed, served)

  -- A session ends, with a result, whatever the client sends and the disc does.
  pub protocol_handle-some : (s : Session C) → is_some (protocol_handle server s).0 ≡ true
  unfolding protocol_handle
  protocol_handle-some s =
      let t = (write_all greeting s).1 in
      let u = (read_exact 4 t).1 in
      elim (Option-cases (parse_client_flags (read_exact 4 t).0.1)) [
        | inl bad ↦ ground (arith, bad)
        | inr (flags, parsed) ↦
            let served = handle_flags-some flags u in ground (arith, parsed, served)
      ]
