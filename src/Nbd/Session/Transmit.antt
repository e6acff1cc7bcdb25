-- ===== src/Nbd/Session/Transmit.antt =====
-- src/platform/nbd_protocol.c: the transmission phase, which answers one request after the other.
use gdox.Common.{
  ℕ, zero, suc, ◌-◌, Bool, true, false, ◌&&◌, ◌||◌, Option, none, some, List, [], ◌++◌, length,
  take, drop, ltb, leb, ◌==◌, if◌then◌else◌,
}
use gdox.Fault.{io, error_is_set, Outcome, ok, failed, succeeded}
use gdox.Source.{PhysicalReadStats}
use gdox.Disc.Dispatch.{disc_length, disc_read_buffer, disc_physical_read_stats}
use gdox.Nbd.Wire.{
  Request, request_bytes, max_buffer_size, cmd_read, cmd_write, cmd_disc, eperm, eio, einval,
  parse_request, read_is_valid,
}
use gdox.Nbd.Socket.{protocol_error, no_memory, connection_reset}
use gdox.Nbd.Telemetry.{ReadEvent}
use gdox.Nbd.Session.{
  Server, M, pure, ◌>>=◌, ◌>>◌, and_then, read_exact, set_error, send_simple_reply, monotonic_ms,
  record_read, record_runtime_error,
}

-- The request buffer with its capacity; a NULL buffer is empty.
pub record RequestBuffer : Type 0 where
  pub bytes : List ℕ
  pub capacity : ℕ

-- `finished_ms >= started_ms ? finished_ms - started_ms : 0U`
abbrev pub elapsed : ℕ → ℕ → ℕ
elapsed started finished = if leb started finished then finished - started else 0

-- The statistics that a valid query gave.
abbrev pub known_stats : Bool × PhysicalReadStats → Option PhysicalReadStats
known_stats (valid, stats) = if valid then some stats else none

-- What the telemetry is told of a read that the bounds refuse, and of one that was tried.
unfoldable pub refused_event : Request → ℕ → ReadEvent
refused_event request elapsed_ms = record {
  offset = request.offset;
  length = request.length;
  sequence_valid = false;
  succeeded = false;
  physical_before = none;
  physical_after = none;
  elapsed_ms = elapsed_ms;
}

unfoldable pub performed_event :
    Request → Outcome → (before after : Option PhysicalReadStats) → ℕ → ReadEvent
performed_event request result before after elapsed_ms = record {
  offset = request.offset;
  length = request.length;
  sequence_valid = true;
  succeeded = succeeded result;
  physical_before = before;
  physical_after = after;
  elapsed_ms = elapsed_ms;
}

module _ {C : Type 0} where
  -- `read_disc_request`: a read of less than it asked for is a failure.
  unfoldable pub read_disc_request : ℕ → List ℕ → M C (Outcome × List ℕ)
  read_disc_request offset output s =
      let (result, buffer, received, disc) = disc_read_buffer s.disc offset output in
      (
        (
          elim result [
            | ok ↦ if received == length output then ok else failed io
            | failed code ↦ failed (if error_is_set code then code else io)
          ],
          buffer,
        ),
        record s { disc = disc },
      )

  unfoldable pub export_length : M C ℕ
  export_length s = (disc_length s.disc, s)

  unfoldable pub physical_stats : M C (Option PhysicalReadStats)
  physical_stats s = (known_stats (disc_physical_read_stats s.disc), s)

  -- `transmit_write`: the payload is read and dropped, and the write refused.
  unfoldable pub transmit_write : Request → ℕ → M C Bool
  transmit_write request reply_error =
      if ltb max_buffer_size request.length
      then (do set_error protocol_error; pure false)
      else if request.length == 0
      then send_simple_reply reply_error request.handle []
      else (do
        (done, payload) ← read_exact request.length
        and_then done (send_simple_reply reply_error request.handle []))

module _ {C : Type 0} (server : Server) where
  -- `report_read_failure`
  unfoldable pub report_read_failure : Request → M C Bool
  report_read_failure request = do
    record_runtime_error server
    send_simple_reply eio request.handle []

  -- A read that the export's bounds refuse.
  unfoldable pub refuse_read : Request → ℕ → M C Bool
  refuse_read request started_ms = do
    finished_ms ← monotonic_ms server
    record_read server (refused_event request (elapsed started_ms finished_ms))
    send_simple_reply einval request.handle []

  -- The end of `transmit_read`.
  unfoldable pub reply_to_read : Request → Outcome → List ℕ → M C Bool
  reply_to_read request ok bytes = send_simple_reply 0 request.handle bytes
  reply_to_read request (failed code) bytes = report_read_failure request

  -- A read inside the export, with the buffer that it leaves.
  unfoldable pub perform_read : Request → ℕ → List ℕ → M C (Bool × List ℕ)
  perform_read request started_ms buffer = do
    before ← physical_stats
    (result, bytes) ← read_disc_request request.offset (take request.length buffer)
    after ← physical_stats
    finished_ms ← monotonic_ms server
    record_read server
        (performed_event request result before after (elapsed started_ms finished_ms))
    sent ← reply_to_read request result bytes
    pure (sent, bytes ++ drop request.length buffer)

  -- `transmit_read`
  unfoldable pub transmit_read : Request → List ℕ → M C (Bool × List ℕ)
  transmit_read request buffer = do
    disc_bytes ← export_length
    started_ms ← monotonic_ms server
    if read_is_valid request disc_bytes
        then perform_read request started_ms buffer
        else (do sent ← refuse_read request started_ms; pure (sent, buffer))

  -- `reserve_request_buffer`: `none` where there is no memory.
  unfoldable pub reserve_request_buffer : RequestBuffer → ℕ → M C (Option RequestBuffer)
  reserve_request_buffer buffer length =
      if leb length buffer.capacity || ltb max_buffer_size length
      then pure (some buffer)
      else elim (server.realloc buffer.bytes length) [
        | none ↦ (do set_error no_memory; pure none)
        | some resized ↦ pure (some (record { bytes = resized; capacity = length }))
      ]

  -- The answer to one request, with the buffer that it leaves.
  unfoldable pub answer : Request → RequestBuffer → M C (Bool × RequestBuffer)
  answer request buffer =
      if request.command == cmd_read && request.flags == 0
      then (do
        (sent, bytes) ← transmit_read request buffer.bytes
        pure (sent, record buffer { bytes = bytes }))
      else if request.command == cmd_write
      then (do
        sent ← transmit_write request (if request.flags == 0 then eperm else einval)
        pure (sent, buffer))
      else (do sent ← send_simple_reply einval request.handle []; pure (sent, buffer))

  -- Whether the end of the client's requests counts as an orderly one.
  unfoldable pub was_reset : M C Bool
  was_reset s = (elim s.socket.error [ connection_reset ↦ true | _ ↦ false ], s)

  -- The loop of `transmit` with its `result`; `none` means that the fuel ran out. A message that is no
  -- request, or memory that is not there, ends the loop with the result of the round before.
  unfoldable pub transmit_loop : ℕ → Bool → RequestBuffer → M C (Option Bool)
  transmit_loop zero result buffer = pure none
  transmit_loop (suc fuel) result buffer = do
    (got, input) ← read_exact request_bytes
    elim got [
      | false ↦ (do reset ← was_reset; pure (some reset))
      | true ↦ elim (parse_request input) [
        | none ↦ (do set_error protocol_error; pure (some result))
        | some request ↦ elim (request.command == cmd_disc) [
          | true ↦ pure (some true)
          | false ↦ (do
            reserved ← reserve_request_buffer buffer request.length
            elim reserved [
              | none ↦ pure (some result)
              | some room ↦ (do
                (sent, left) ← answer request room
                elim sent [ true ↦ transmit_loop fuel true left | false ↦ pure (some false) ])
            ])
        ]
      ]
    ]

  -- `transmit`
  unfoldable pub transmit : M C (Option Bool)
  transmit s =
      transmit_loop (suc (length s.socket.incoming)) false (record { bytes = []; capacity = 0 }) s
