-- ===== src/Nbd/Export/Negotiation.antt =====
-- The negotiation of src/platform/nbd_protocol.c with a client that asks for the export by its name.
use mathlib.Core.Path.{subst}
use gdox.Common.{
  ℕ, ◌^◌, ◌≤◌, ◌<◌, ◌≡◌, refl, sym, ◌∙◌, ◌⊎◌, Bool, true, false, some, List, [], ◌∷◌, ◌++◌,
  append_assoc, length, length-append, replicate, leb, ◌==◌, if◌then◌else◌, arith,
}
use gdox.Disc.Dispatch.{disc_length}
use gdox.Nbd.Wire.{
  option_header_bytes, opt_export_name, max_option_size, greeting, export_response, put_be_u16,
  put_be_u32, put_be_u64,
}
use gdox.Nbd.Wire.RoundTrip.{
  length-option_header_message, option_header_message, parse_option_header-message,
}
use gdox.Nbd.Session.{Server, Session, read_exact, write_all, ◌>>=◌, and_then, pure}
use gdox.Nbd.Session.Transmit.{export_length}
use gdox.Nbd.Session.Negotiate.{
  read_option_payload, read_option_request, negotiate_export_name, negotiate_loop, negotiate,
}
use gdox.Nbd.Session.Negotiate.Guard.{export_name_matches_iff}
use gdox.Nbd.Export.Moves.{
  Moves, Moves-refl, Moves-trans, Moves-then, read_exact-Moves, write_all-Moves,
}

-- An option as a client sends it.
abbrev pub option_message : ℕ → List ℕ → List ℕ
option_message option payload = option_header_message option (length payload) ++ payload

length-export_response : (n flags : ℕ) → length (export_response n flags) ≡ 10
unfolding export_response put_be_u64 put_be_u16
length-export_response n flags = refl

pub length-greeting : length greeting ≡ 18
unfolding greeting
length-greeting = refl

pub length-put_be_u32 : (n : ℕ) → length (put_be_u32 n) ≡ 4
unfolding put_be_u32
length-put_be_u32 n = refl

pub small_flags : (flags : ℕ) → (flags ≡ 1) ⊎ (flags ≡ 3) → flags < 2 ^ 32
small_flags flags known = ground (arith, known)

-- The zeroes behind the answer to EXPORT_NAME.
abbrev pub padding : Bool → List ℕ
padding no_zeroes = if no_zeroes then [] else replicate 124 0

pub length-reply :
    (n flags : ℕ) (no_zeroes : Bool) → length (export_response n flags ++ padding no_zeroes) ≤ 134
length-reply n flags true =
    omega (arith, length-export_response n flags, length-append (export_response n flags) [])
length-reply n flags false = omega (
  arith,
  length-export_response n flags,
  length-append (export_response n flags) (replicate 124 0),
)

padding-Moves :
    {C : Type 0} (no_zeroes : Bool) (s : Session C)
    → 124 ≤ s.socket.room
    → let out = (if no_zeroes then pure true else write_all (replicate 124 0)) s in
      (out.0 ≡ true) × Moves s.socket out.1.socket [] (padding no_zeroes) × (out.1.disc ≡ s.disc)
padding-Moves true s room = (refl, Moves-refl s.socket, refl)
padding-Moves false s room = write_all-Moves (replicate 124 0) s room

module _ {C : Type 0} (server : Server) where
  read_option_payload-Moves :
      (option : ℕ) (payload rest : List ℕ) (s : Session C)
      → server.malloc (length payload) ≡ true
      → s.socket.incoming ≡ payload ++ rest
      → let out = read_option_payload server option (length payload) s in
        (out.0 ≡ some (record { option = option; payload = payload }))
        × (out.1.socket.incoming ≡ rest)
        × (out.1.disc ≡ s.disc)
        × Moves s.socket out.1.socket payload []
  unfolding read_option_payload
  read_option_payload-Moves option [] rest s memory next = (refl, next, refl, Moves-refl s.socket)
  read_option_payload-Moves option (b ∷ bs) rest s memory next =
      let (done, bytes, left, same, moved) =
        read_exact-Moves (length (b ∷ bs)) (b ∷ bs) rest s refl next in
      let some_left : (length (b ∷ bs) == 0) ≡ false = ground arith in
      rw (some_left, memory, ◌>>=◌, done, bytes) (refl, left, same, moved)

  read_option_request-Moves :
      (option : ℕ) (payload rest : List ℕ) (s : Session C)
      → option < 2 ^ 32
      → length payload ≤ max_option_size
      → server.malloc (length payload) ≡ true
      → s.socket.incoming ≡ option_message option payload ++ rest
      → let out = read_option_request server s in
        (out.0 ≡ some (record { option = option; payload = payload }))
        × (out.1.socket.incoming ≡ rest)
        × (out.1.disc ≡ s.disc)
        × Moves s.socket out.1.socket (option_message option payload) []
  unfolding read_option_request
  read_option_request-Moves option payload rest s small fits memory next =
      let header = option_header_message option (length payload) in
      let (done, bytes, left, same, moved) =
        read_exact-Moves option_header_bytes header (payload ++ rest) s
          (length-option_header_message option (length payload))
          (next ∙ append_assoc header payload rest) in
      let parsed = parse_option_header-message option (length payload) small (omega arith) in
      let allowed : leb (length payload) max_option_size ≡ true = ground arith in
      let t = (read_exact option_header_bytes s).1 in
      let (got, left', same', moved') =
        read_option_payload-Moves option payload rest t memory left in
      rw (◌>>=◌, done, bytes, parsed, allowed)
        (got, left', same' ∙ same, Moves-trans header [] payload [] moved moved')

  negotiate_export_name-Moves :
      (no_zeroes : Bool) (s : Session C)
      → 134 ≤ s.socket.room
      → let out = negotiate_export_name server server.export_name no_zeroes s in
        (out.0 ≡ true)
        × (out.1.disc ≡ s.disc)
        × Moves s.socket out.1.socket []
            (export_response (disc_length s.disc) server.export_flags ++ padding no_zeroes)
  unfolding negotiate_export_name export_length
  negotiate_export_name-Moves no_zeroes s room =
      let response = export_response (disc_length s.disc) server.export_flags in
      let matches = (export_name_matches_iff server server.export_name).1 refl in
      let size = length-export_response (disc_length s.disc) server.export_flags in
      let (sent, moved, same) = write_all-Moves response s (omega (arith, size, room)) in
      let (sent', moved', same') =
        padding-Moves no_zeroes (write_all response s).1 (omega (arith, moved.room, size, room)) in
      rw (matches, ◌>>=◌, sent, and_then)
        (sent', same' ∙ same, Moves-trans [] response [] (padding no_zeroes) moved moved')

  pub negotiate-Moves :
      (no_zeroes : Bool) (rest : List ℕ) (s : Session C)
      → length server.export_name ≤ max_option_size
      → server.malloc (length server.export_name) ≡ true
      → s.socket.incoming ≡ option_message opt_export_name server.export_name ++ rest
      → 134 ≤ s.socket.room
      → let out = negotiate server no_zeroes s in
        (out.0 ≡ some true)
        × (out.1.socket.incoming ≡ rest)
        × (out.1.disc ≡ s.disc)
        × Moves s.socket out.1.socket
            (option_message opt_export_name server.export_name)
            (export_response (disc_length s.disc) server.export_flags ++ padding no_zeroes)
  unfolding negotiate negotiate_loop
  negotiate-Moves no_zeroes rest s fits memory next room =
      let message = option_message opt_export_name server.export_name in
      let (got, left, same, moved) =
        read_option_request-Moves opt_export_name server.export_name rest s (ground arith) fits
          memory next in
      let t = (read_option_request server s).1 in
      let (sent, same', moved') =
        negotiate_export_name-Moves no_zeroes t (omega (arith, moved.room, room)) in
      let reply = export_response (disc_length t.disc) server.export_flags ++ padding no_zeroes in
      let out = negotiate_export_name server server.export_name no_zeroes t in
      let all = Moves-then message reply moved moved' in
      rw (◌>>=◌, got, ◌>>=◌, sent)
        (
          refl,
          sym moved'.incoming ∙ left,
          same' ∙ same,
          subst
              (λ d.
                Moves s.socket out.1.socket message
                  (export_response (disc_length d) server.export_flags ++ padding no_zeroes))
              same all,
        )
