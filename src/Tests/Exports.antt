-- ===== src/Tests/Exports.antt =====
-- The theorems on the export, at a client of the medium in memory.
use gdox.Common.{
  ℕ, ◌/◌, ◌%◌, ◌≡◌, refl, inl, inr, true, false, not, some, none, is_some, List, [], ◌∷◌, ◌++◌,
  replicate, length-replicate, ◌==◌, arith,
}
use gdox.Nbd.Wire.{
  Request, cmd_read, cmd_write, cmd_disc, opt_export_name, greeting, export_response, parse_request,
  read_be_u32, put_be_u32,
}
use gdox.Nbd.Wire.RoundTrip.{Fits, request_message, parse_request-message}
use gdox.Nbd.Telemetry.{ReadEvent, telemetry_record}
use gdox.Nbd.Telemetry.Ledger.{record_all, fresh_telemetry}
use gdox.Nbd.Telemetry.Totals.{Counts}
use gdox.Nbd.Telemetry.Exact.{telemetry_record-Counts}
use gdox.Nbd.Socket.{protocol_error, other}
use gdox.Nbd.Session.{Server, Session}
use gdox.Nbd.Session.Transmit.{transmit}
use gdox.Nbd.Session.Negotiate.{negotiate, protocol_handle}
use gdox.Nbd.Session.Negotiate.Guard.{HasNamed, negotiate-names}
use gdox.Nbd.Session.Total.{protocol_handle-some}
use gdox.Nbd.Export.Moves.{Moves}
use gdox.Nbd.Export.Answers.{Call}
use gdox.Nbd.Export.Ending.{transmit-Answered, transmit-malformed}
use gdox.Nbd.Export.Conversation.{messages, AllMayCall, Answered, HasMemory}
use gdox.Nbd.Export.Negotiation.{option_message, padding, negotiate-Moves}
use gdox.Nbd.Export.Service.{protocol_handle-serves}
use gdox.Disc.Direct.{DirectContext}
use gdox.Tests.Ram.{ram_image, ram_bytes, ram_disc, ram, IsRamDisc, IsRamDisc-ServesBytes}

-- An export with the name "gdox" in a system that has what is asked of it.
abbrev server : Server
server = record {
  export_name = 103 ∷ 100 ∷ 111 ∷ 120 ∷ [];
  export_flags = 3;
  malloc = λ n. true;
  realloc = λ block n. some (replicate n 0);
  clock = λ ticks. ticks;
  can_lock = true;
  can_configure = true;
  can_clear_timeouts = true;
}

server-HasMemory : HasMemory server
server-HasMemory block n small = (replicate n 0, refl, length-replicate n 0)

abbrev session : List ℕ → Session (DirectContext (Unit {0}))
session incoming = record {
  socket = record {
    incoming = incoming;
    ending = other;
    outgoing = [];
    room = 1_000;
    refusal = other;
    error = other;
  };
  disc = ram_disc;
  telemetry = fresh_telemetry;
  runtime_error = none;
  ticks = 0;
}

-- A read across a sector, a write, and the end.
abbrev reading : Request
reading = record { flags = 0; command = cmd_read; handle = 17; offset = 2_047; length = 3 }

abbrev writing : Request
writing = record { flags = 0; command = cmd_write; handle = 18; offset = 5; length = 2 }

abbrev leaving : Request
leaving = record { flags = 0; command = cmd_disc; handle = 19; offset = 0; length = 0 }

abbrev calls : List Call
calls =
    record { request = reading; payload = [] }
    ∷ record { request = writing; payload = 1 ∷ 2 ∷ [] }
    ∷ []

reading-Fits : Fits reading
reading-Fits = record {
  flags = ground arith;
  command = ground arith;
  handle = ground arith;
  offset = ground arith;
  length = ground arith;
}

writing-Fits : Fits writing
writing-Fits = record {
  flags = ground arith;
  command = ground arith;
  handle = ground arith;
  offset = ground arith;
  length = ground arith;
}

leaving-Fits : Fits leaving
leaving-Fits = record {
  flags = ground arith;
  command = ground arith;
  handle = ground arith;
  offset = ground arith;
  length = ground arith;
}

calls-AllMayCall : AllMayCall calls
calls-AllMayCall = (
  record { fits = reading-Fits; payload = inr (ground arith, refl); stays = ground arith },
  (
    record { fits = writing-Fits; payload = inl (refl, refl, ground arith); stays = ground arith },
    tt,
  ),
)

abbrev requests : List ℕ
requests = messages calls ++ (request_message leaving ++ [])

abbrev client : List ℕ
client = put_be_u32 3 ++ (option_message opt_export_name server.export_name ++ requests)

protocol_handle-serves_example :
    let out = protocol_handle server (session client) in
    (out.0 ≡ some true)
    × ((sent : List ℕ) × Answered IsRamDisc ram_bytes ram_image calls sent
        × (out.1.socket.outgoing
            ≡ []
              ++ (greeting
                  ++ ((export_response ram_bytes 3 ++ padding (not (3 / 2 % 2 == 0))) ++ sent))))
    × IsRamDisc out.1.disc
protocol_handle-serves_example =
    protocol_handle-serves IsRamDisc ram_bytes ram_image IsRamDisc-ServesBytes server
      server-HasMemory 3 calls leaving [] (session client) (inr refl) refl refl (ground arith) refl
      calls-AllMayCall leaving-Fits refl (ram, refl, refl) refl (ground arith)

transmit-Answered_example :
    let out = transmit server (session requests) in
    (out.0 ≡ some true)
    × ((sent : List ℕ) × Answered IsRamDisc ram_bytes ram_image calls sent
        × Moves
            (session requests).socket
            out.1.socket
            (messages calls ++ request_message leaving)
            sent)
    × IsRamDisc out.1.disc
transmit-Answered_example =
    transmit-Answered IsRamDisc ram_bytes ram_image IsRamDisc-ServesBytes server server-HasMemory
      calls leaving [] (session requests) calls-AllMayCall leaving-Fits refl (ram, refl, refl) refl
      (ground arith)

abbrev noise : List ℕ
noise = replicate 28 0

no_request : parse_request noise ≡ none
unfolding parse_request read_be_u32
no_request = refl

transmit-malformed_example :
    let out = transmit server (session (messages calls ++ (noise ++ []))) in
    (out.0 ≡ some true)
    × (out.1.socket.error ≡ protocol_error)
    × ((sent : List ℕ) × Answered IsRamDisc ram_bytes ram_image calls sent
        × (out.1.socket.outgoing ≡ [] ++ sent))
transmit-malformed_example =
    transmit-malformed IsRamDisc ram_bytes ram_image IsRamDisc-ServesBytes server server-HasMemory
      calls noise [] (session (messages calls ++ (noise ++ []))) calls-AllMayCall refl no_request
      (ram, refl, refl) refl (ground arith)

protocol_handle-some_example : is_some (protocol_handle server (session client)).0 ≡ true
protocol_handle-some_example = protocol_handle-some server (session client)

abbrev naming : List ℕ
naming = option_message opt_export_name server.export_name ++ []

named : (negotiate server true (session naming)).0 ≡ some true
named = (negotiate-Moves server true [] (session naming) (ground arith) refl refl (ground arith)).0

negotiate-names_example : HasNamed server naming
negotiate-names_example = negotiate-names server true (session naming) named

parse_request-message_example : parse_request (request_message reading) ≡ some reading
parse_request-message_example = parse_request-message reading reading-Fits

abbrev flags : ℕ
flags = 3

abbrev event : ReadEvent
event = record {
  offset = 2_047;
  length = 3;
  sequence_valid = true;
  succeeded = true;
  physical_before = none;
  physical_after = none;
  elapsed_ms = 4;
}

-- A read that starts where `event` ends, and one that fails elsewhere
abbrev next_event : ReadEvent
next_event = record event { offset = 2_050 }

abbrev far_event : ReadEvent
far_event = record event { offset = 9; succeeded = false }

abbrev three_events : List ReadEvent
three_events = event ∷ next_event ∷ far_event ∷ []

telemetry_record-Counts_example :
    Counts three_events (record_all telemetry_record fresh_telemetry three_events).reads
telemetry_record-Counts_example = telemetry_record-Counts three_events
