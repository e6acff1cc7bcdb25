-- ===== src/Nbd/Session/Negotiate/Guard.antt =====
-- What a client must send for the negotiation of src/platform/nbd_protocol.c to succeed.
use mathlib.Core.Path.{subst}
use gdox.Common.Compare.{same_bytes-≡, same_bytes_refl}
use gdox.Common.{
  ℕ, zero, suc, ◌≡◌, refl, sym, ap, ◌∙◌, ◌⊎◌, ◌↔◌, inl, inr, Bool, true, ◌||◌, some, List, [], ◌++◌,
  append_assoc, length, ◌==◌, Bool-cases, Option-cases, arith,
}
use gdox.Nbd.Wire.{
  opt_info, option_header_bytes, opt_abort, opt_export_name, opt_go, parse_option_header,
  parse_info_name,
}
use gdox.Nbd.Socket.{socket_write_all}
use gdox.Nbd.Session.{write_all, send_option_reply, Server, Session, ◌>>=◌, read_exact}
use gdox.Nbd.Session.Transmit.{export_length}
use gdox.Nbd.Session.Negotiate.{
  send_export_info, OptionRequest, export_name_matches, read_option_payload, read_option_request,
  negotiate_export_name, negotiate_info, answer_option, abort_negotiation, negotiate_loop,
  negotiate,
}
use gdox.Nbd.Session.Progress.{read_exact-takes_all}

-- A message with an option, as it was taken off what a client sends.
pub record OptionMessage (request : OptionRequest) (before after : List ℕ) : Type 0 where
  pub header : List ℕ
  pub size : length header ≡ option_header_bytes
  pub parsed : parse_option_header header ≡ some (request.option, length request.payload)
  pub taken : before ≡ header ++ (request.payload ++ after)

-- A name matches exactly when it is the export's name.
pub export_name_matches_iff :
    (server : Server) (name : List ℕ)
    → (export_name_matches server name ≡ true) ↔ (name ≡ server.export_name)
unfolding export_name_matches
export_name_matches_iff server name = (
  λ h. same_bytes-≡ name server.export_name (ground (arith, h)),
  λ e. let same = same_bytes_refl server.export_name in rw e (ground (arith, same)),
)

-- An option that names the export: by EXPORT_NAME, or by GO with the name in its payload.
abbrev pub NamesExport : Server → OptionRequest → Type 0
NamesExport server request =
    ((request.option ≡ opt_export_name) × (request.payload ≡ server.export_name))
    ⊎ ((request.option ≡ opt_go) × (parse_info_name request.payload ≡ some server.export_name))

-- An option that names the export is among those that a client sends.
abbrev pub HasNamed : Server → List ℕ → Type 0
HasNamed server sent =
    (before : List ℕ) × (from : List ℕ) × (request : OptionRequest) × (after : List ℕ) × (sent
      ≡ before ++ from)
    × OptionMessage request from after
    × NamesExport server request

-- It is also among those that include what was sent before.
HasNamed-later :
    (server : Server) (request : OptionRequest) (sent later : List ℕ)
    → OptionMessage request sent later
    → HasNamed server later
    → HasNamed server sent
HasNamed-later server request sent later message (before, from, named, after, split, at, names) = (
  message.header ++ (request.payload ++ before),
  from,
  named,
  after,
  message.taken
      ∙ ap (λ x. message.header ++ (request.payload ++ x)) split
      ∙ ap (λ x. message.header ++ x) (sym (append_assoc request.payload before from))
      ∙ sym (append_assoc message.header (request.payload ++ before) from),
  at,
  names,
)

module _ {C : Type 0} (server : Server) where
  read_option_payload_lem :
      (option n : ℕ) (request : OptionRequest) (s : Session C)
      → (read_option_payload server option n s).0 ≡ some request
      → (request.option ≡ option)
        × (length request.payload ≡ n)
        × (s.socket.incoming
            ≡ request.payload ++ (read_option_payload server option n s).1.socket.incoming)
  unfolding read_option_payload
  read_option_payload_lem option n request s = elim (Bool-cases (read_exact n s).0.0) [
    | inl done ↦
        let (size, taken) = read_exact-takes_all n s done in
        (λ e. ground (arith, size, taken, done))
    | inr short ↦ (λ e. ground (arith, short))
  ]

  pub read_option_request_lem :
      (request : OptionRequest) (s : Session C)
      → (read_option_request server s).0 ≡ some request
      → OptionMessage request s.socket.incoming (read_option_request server s).1.socket.incoming
  unfolding read_option_request
  read_option_request_lem request s = elim (Bool-cases (read_exact option_header_bytes s).0.0) [
    | inr short ↦ rw (◌>>=◌, short) (λ e. absurd (ground (arith, e)))
    | inl got ↦
        let (size, taken) = read_exact-takes_all option_header_bytes s got in
        elim (Option-cases (parse_option_header (read_exact option_header_bytes s).0.1)) [
          | inl bad ↦ rw (◌>>=◌, got, bad) (λ e. absurd (ground (arith, e)))
          | inr ((option, n), parsed) ↦
              rw (◌>>=◌, got, parsed)
                (λ e.
                  let (same, length, rest) =
                    read_option_payload_lem option n request (read_exact option_header_bytes s).1
                      e in
                  record {
                    header = (read_exact option_header_bytes s).0.1;
                    size = size;
                    parsed = parsed ∙ ap some (ground (arith, same, length));
                    taken = taken ∙ ap (λ x. (read_exact option_header_bytes s).0.1 ++ x) rest;
                  })
        ]
  ]

  pub answer_option-keeps :
      (request : OptionRequest) (s : Session C)
      → (answer_option server request s).1.socket.incoming ≡ s.socket.incoming
  unfolding answer_option negotiate_info send_export_info export_length send_option_reply write_all
      socket_write_all
  answer_option-keeps request s = ground arith

  negotiate_export_name-names :
      (payload : List ℕ) (no_zeroes : Bool) (s : Session C)
      → (negotiate_export_name server payload no_zeroes s).0 ≡ true
      → payload ≡ server.export_name
  unfolding negotiate_export_name
  negotiate_export_name-names payload no_zeroes s =
      elim (Bool-cases (export_name_matches server payload)) [
        | inl matches ↦ λ e. (export_name_matches_iff server payload).0 matches
        | inr other ↦ rw other (λ e. absurd (ground (arith, e)))
      ]

  negotiate_info-names :
      (request : OptionRequest) (s : Session C)
      → (negotiate_info server request s).0.1 ≡ true
      → (request.option ≡ opt_go) × (parse_info_name request.payload ≡ some server.export_name)
  unfolding negotiate_info
  negotiate_info-names request s = elim (Option-cases (parse_info_name request.payload)) [
    | inl bad ↦ rw (negotiate_info, bad) (λ e. absurd (ground (arith, e)))
    | inr (name, parsed) ↦
        rw (negotiate_info, parsed)
          (elim (Bool-cases (export_name_matches server name)) [
            | inl matches ↦ rw matches (λ e.
                (ground (arith, e), ap some ((export_name_matches_iff server name).0 matches)))
            | inr other ↦ rw other (λ e. absurd (ground (arith, e)))
          ])
  ]

  answer_option-names :
      (request : OptionRequest) (s : Session C)
      → (answer_option server request s).0.1 ≡ true
      → NamesExport server request
  unfolding answer_option
  answer_option-names request s =
      elim (Bool-cases (request.option == opt_info || request.option == opt_go)) [
        | inl asks ↦ rw asks (λ e. inr (negotiate_info-names request s e))
        | inr other ↦ rw other (λ e. absurd (ground (arith, e)))
      ]

  negotiate_loop-names :
      (fuel : ℕ) (no_zeroes : Bool) (s : Session C)
      → (negotiate_loop server fuel no_zeroes s).0 ≡ some true
      → HasNamed server s.socket.incoming
  unfolding negotiate_loop abort_negotiation
  negotiate_loop-names zero no_zeroes s = λ h. absurd (ground (arith, h))
  negotiate_loop-names (suc fuel) no_zeroes s =
      elim (Option-cases (read_option_request server s).0) [
        | inl ended ↦ rw (◌>>=◌, ended) (λ h. absurd (ground (arith, h)))
        | inr (request, got) ↦
            let message = read_option_request_lem request s got in
            let t = (read_option_request server s).1 in
            let found : NamesExport server request → HasNamed server s.socket.incoming =
              λ named. ([], s.socket.incoming, request, t.socket.incoming, refl, message, named) in
            rw (◌>>=◌, got)
              (elim (Bool-cases (request.option == opt_abort)) [
                | inl aborts ↦ rw aborts (λ h. absurd (ground (arith, h)))
                | inr goes ↦ rw goes (elim (Bool-cases (request.option == opt_export_name)) [
                  | inl export_name ↦ rw export_name (λ h. found (
                      inl (
                        ground (arith, export_name),
                        negotiate_export_name-names request.payload no_zeroes t (ground (arith, h)),
                      )))
                  | inr asks ↦ rw asks (elim (Bool-cases (answer_option server request t).0.1) [
                    | inl ready ↦ λ h. found (answer_option-names request t ready)
                    | inr again ↦ (elim (Bool-cases (answer_option server request t).0.0) [
                      | inr failed ↦ rw (◌>>=◌, again, failed) (λ h. absurd (ground (arith, h)))
                      | inl answered ↦
                          rw (◌>>=◌, again, answered)
                            (λ h.
                              HasNamed-later server request s.socket.incoming t.socket.incoming
                                message
                                (subst (HasNamed server) (answer_option-keeps request t) (
                                  negotiate_loop-names fuel no_zeroes
                                    (answer_option server request t).1 h)))
                    ])
                  ])
                ])
              ])
      ]

  -- A client gets past the negotiation only if it names the export: among the options that it sends
  -- is a whole message of EXPORT_NAME with the export's name, or of GO with it in its payload.
  pub negotiate-names :
      (no_zeroes : Bool) (s : Session C)
      → (negotiate server no_zeroes s).0 ≡ some true
      → HasNamed server s.socket.incoming
  unfolding negotiate
  negotiate-names no_zeroes s = negotiate_loop-names (suc (length s.socket.incoming)) no_zeroes s
