-- ===== src/Nbd/Session/Negotiate.antt =====
-- src/platform/nbd_protocol.c: the negotiation, in which the client names the export.
pub mod Guard
use gdox.Common.{
  ◌/◌, ◌%◌, ℕ, zero, suc, Bool, true, false, not, ◌&&◌, ◌||◌, Option, none, some, List, [], ◌∷◌,
  length, replicate, ◌==◌, if◌then◌else◌,
}
use gdox.Common.Compare.{same_bytes}
use gdox.Disc.{Disc}
use gdox.Disc.Dispatch.{disc_length}
use gdox.Nbd.Wire.{
  option_header_bytes, opt_export_name, opt_abort, opt_info, opt_go, rep_ack, rep_info,
  rep_err_unsup, rep_err_invalid, rep_err_unknown, greeting, parse_client_flags,
  parse_option_header, parse_info_name, export_response, block_size_info, export_info,
}
use gdox.Nbd.Socket.{protocol_error, permission_error, no_memory, connection_aborted}
use gdox.Nbd.Session.{
  Server, Session, M, pure, ◌>>=◌, ◌>>◌, and_then, read_exact, write_all, set_error,
  send_option_reply,
}
use gdox.Nbd.Session.Transmit.{export_length, transmit}

-- An option with its payload, as `read_option_request` returns it.
pub record OptionRequest : Type 0 where
  pub option : ℕ
  pub payload : List ℕ

-- `export_name_matches`
unfoldable pub export_name_matches : Server → List ℕ → Bool
export_name_matches server name =
    length name == length server.export_name && same_bytes name server.export_name

module _ {C : Type 0} (server : Server) where
  -- `send_export_info`
  unfoldable pub send_export_info : ℕ → ℕ → M C Bool
  send_export_info option length = do
    sent ← send_option_reply option rep_info block_size_info
    and_then sent (send_option_reply option rep_info (export_info length server.export_flags))

  -- The rest of `read_option_request`, once the header is parsed.
  unfoldable pub read_option_payload : ℕ → ℕ → M C (Option OptionRequest)
  read_option_payload option payload_length =
      if payload_length == 0
      then pure (some (record { option = option; payload = [] }))
      else if not (server.malloc payload_length)
      then (do set_error no_memory; pure none)
      else (do
        (done, payload) ← read_exact payload_length
        pure (if done then some (record { option = option; payload = payload }) else none))

  -- `read_option_request`
  unfoldable pub read_option_request : M C (Option OptionRequest)
  read_option_request = do
    (done, header) ← read_exact option_header_bytes
    (if done
        then elim (parse_option_header header) [
          | none ↦ (do set_error protocol_error; pure none)
          | some (option, payload_length) ↦ read_option_payload option payload_length
        ]
        else (do set_error protocol_error; pure none))

  -- `negotiate_export_name`
  unfoldable pub negotiate_export_name : List ℕ → Bool → M C Bool
  negotiate_export_name payload no_zeroes =
      if not (export_name_matches server payload)
      then (do set_error permission_error; pure false)
      else (do
        length ← export_length
        sent ← write_all (export_response length server.export_flags)
        and_then sent (if no_zeroes then pure true else write_all (replicate 124 0)))

  -- `negotiate_info`: the result, and whether the client is ready.
  unfoldable pub negotiate_info : OptionRequest → M C (Bool × Bool)
  negotiate_info request = elim (parse_info_name request.payload) [
    | none ↦ (do
      -- "invalid info request"
      sent ← send_option_reply request.option rep_err_invalid (
          105 ∷ 110 ∷ 118 ∷ 97 ∷ 108 ∷ 105 ∷ 100 ∷ 32 ∷ 105 ∷ 110 ∷ 102 ∷ 111 ∷ 32 ∷ 114 ∷ 101 ∷ 113
          ∷ 117 ∷ 101 ∷ 115 ∷ 116 ∷ [])
      pure (sent, false))
    | some name ↦
        if not (export_name_matches server name)
        then (do
          -- "unknown export"
          sent ← send_option_reply request.option rep_err_unknown (
              117 ∷ 110 ∷ 107 ∷ 110 ∷ 111 ∷ 119 ∷ 110 ∷ 32 ∷ 101 ∷ 120 ∷ 112 ∷ 111 ∷ 114 ∷ 116 ∷ [])
          pure (sent, false))
        else (do
          length ← export_length
          informed ← send_export_info request.option length
          result ← and_then informed (send_option_reply request.option rep_ack [])
          pure (result, result && request.option == opt_go))
  ]

  -- The answer to an option that does not end the negotiation by itself.
  unfoldable pub answer_option : OptionRequest → M C (Bool × Bool)
  answer_option request =
      if request.option == opt_info || request.option == opt_go
      then negotiate_info request
      else (do sent ← send_option_reply request.option rep_err_unsup []; pure (sent, false))

  -- The reply to an abort; the negotiation has failed either way.
  unfoldable pub abort_negotiation : ℕ → M C Bool
  abort_negotiation option = do
    sent ← send_option_reply option rep_ack []
    (if sent then (do set_error connection_aborted; pure false) else pure false)

  -- The loop of `negotiate`; `none` means that the fuel ran out. Each round takes an option off
  -- what the client sends.
  unfoldable pub negotiate_loop : ℕ → Bool → M C (Option Bool)
  negotiate_loop zero no_zeroes = pure none
  negotiate_loop (suc fuel) no_zeroes = do
    got ← read_option_request
    elim got [
      | none ↦ pure (some false)
      | some request ↦ elim (request.option == opt_abort) [
        | true ↦ (do result ← abort_negotiation request.option; pure (some result))
        | false ↦ elim (request.option == opt_export_name) [
          | true ↦ (do result ← negotiate_export_name request.payload no_zeroes; pure (some result))
          | false ↦ (do
            (result, ready) ← answer_option request
            elim ready [
              | true ↦ pure (some true)
              | false ↦ elim result [
                | true ↦ negotiate_loop fuel no_zeroes
                | false ↦ pure (some false)
              ]
            ])
        ]
      ]
    ]

  -- `negotiate`
  unfoldable pub negotiate : Bool → M C (Option Bool)
  negotiate no_zeroes s = negotiate_loop (suc (length s.socket.incoming)) no_zeroes s

  -- The phases of `gdox_nbd_protocol_handle` behind the client's flags.
  unfoldable pub handle_flags : ℕ → M C (Option Bool)
  handle_flags flags = do
    agreed ← negotiate (not (flags / 2 % 2 == 0))
    elim agreed [
      | none ↦ pure none
      | some false ↦ pure (some false)
      | some true ↦ if server.can_clear_timeouts then transmit server else pure (some false)
    ]

  -- `gdox_nbd_protocol_handle`
  unfoldable pub protocol_handle : M C (Option Bool)
  protocol_handle = if not server.can_configure then pure (some false) else (do
    greeted ← write_all greeting
    (if greeted
        then (do
          (got, bytes) ← read_exact 4
          (if got
              then elim (parse_client_flags bytes) [
                | none ↦ (do set_error protocol_error; pure (some false))
                | some flags ↦ handle_flags flags
              ]
              else pure (some false)))
        else pure (some false)))
