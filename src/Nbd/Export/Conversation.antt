-- ===== src/Nbd/Export/Conversation.antt =====
-- The loop of `transmit` in src/platform/nbd_protocol.c over the requests of a client.
use mathlib.Core.Path.{subst}
use gdox.Common.{
  Bool, ◌-◌, slice, length-slice, ℕ, zero, suc, ◌+◌, ◌≤◌, ◌≡◌, refl, sym, ap, ◌∙◌, ◌≢◌, inl, inr,
  true, false, ◌||◌, some, List, [], ◌∷◌, ◌++◌, append_assoc, length, length-append, Image, ltb,
  leb, ◌==◌, if◌then◌else◌, Bool-cases, arith,
}
use gdox.Disc.{Disc}
use gdox.Disc.Image.{ServesBytes}
use gdox.Nbd.Wire.{
  simple_reply, eio, eperm, einval, Request, request_bytes, cmd_disc, max_buffer_size, put_be_u64,
}
use gdox.Nbd.Wire.RoundTrip.{Fits, request_message, parse_request-message}
use gdox.Nbd.Session.{◌>>=◌, Server, Session, read_exact}
use gdox.Nbd.Session.Transmit.{RequestBuffer, reserve_request_buffer, answer, transmit_loop}
use gdox.Nbd.Export.Moves.{
  Moves-refl, read_exact-Moves, append-cancel, length-simple_reply, Moves, Moves-trans,
}
use gdox.Nbd.Export.Replies.{Reply}
use gdox.Nbd.Export.Answers.{Call, HasPayload, answer-Replied}

-- A request that a client may send before it disconnects.
pub record MayCall (c : Call) : Type 0 where
  pub fits : Fits c.request
  pub payload : HasPayload c
  pub stays : c.request.command ≢ cmd_disc

-- All of what a client sends for its calls, and the room that the replies need at most.
abbrev pub messages : List Call → List ℕ
messages [] = []
messages (c ∷ cs) = request_message c.request ++ (c.payload ++ messages cs)

abbrev pub reply_room : List Call → ℕ
reply_room [] = 0
reply_room (c ∷ cs) = 16 + c.request.length + reply_room cs

abbrev pub AllMayCall : List Call → Type 0
AllMayCall [] = Unit
AllMayCall (c ∷ cs) = MayCall c × AllMayCall cs

-- The calls' replies, in the order of the calls.
abbrev pub Answered : {C : Type 0} → (Disc C → Type 0) → ℕ → Image → List Call → List ℕ → Type 0
Answered Good size img [] sent = sent ≡ []
Answered Good size img (c ∷ cs) sent =
    (first : List ℕ) × (later : List ℕ) × Reply Good size img c.request first
    × Answered Good size img cs later
    × (sent ≡ first ++ later)

pub length-request_message : (r : Request) → length (request_message r) ≡ request_bytes
unfolding request_message put_be_u64
length-request_message r = refl

empty-fits : (e : ℕ) (r : Request) → length (simple_reply e r.handle ++ []) ≤ 16 + r.length
empty-fits e r =
    omega (arith, length-append (simple_reply e r.handle) [], length-simple_reply e r.handle)

-- A reply has at most the header and the bytes that the request asks for.
length-Reply :
    {C : Type 0} (Good : Disc C → Type 0) (size : ℕ) (img : Image) (r : Request) (sent : List ℕ)
    → Reply Good size img r sent
    → length sent ≤ 16 + r.length
length-Reply Good size img r sent (Reply.content _ _ e) = rw e (
    omega (
      arith,
      length-append (simple_reply 0 r.handle) (slice img r.offset r.length),
      length-simple_reply 0 r.handle,
      length-slice img r.offset r.length,
    ))
length-Reply Good size img r sent (Reply.unreadable _ _ _ _ _ _ _ e) = rw e (empty-fits eio r)
length-Reply Good size img r sent (Reply.outside _ _ e) = rw e (empty-fits einval r)
length-Reply Good size img r sent (Reply.read_only _ e) =
    rw e (empty-fits (if r.flags == 0 then eperm else einval) r)
length-Reply Good size img r sent (Reply.unknown _ _ e) = rw e (empty-fits einval r)

-- `realloc` has memory for any buffer that a request may need.
abbrev pub HasMemory : Server → Type 0
HasMemory server =
    (bytes : List ℕ) (n : ℕ)
    → n ≤ max_buffer_size
    → (block : List ℕ) × (server.realloc bytes n ≡ some block) × (length block ≡ n)

-- The buffer's capacity is the length of its block.
abbrev IsWhole : RequestBuffer → Type 0
IsWhole buffer = length buffer.bytes ≡ buffer.capacity

length-messages : (calls : List Call) → length calls ≤ length (messages calls)
length-messages [] = omega arith
length-messages (c ∷ cs) = omega (
  arith,
  length-append (request_message c.request) (c.payload ++ messages cs),
  length-append c.payload (messages cs),
  length-request_message c.request,
  length-messages cs,
)

module _ {C : Type 0} (server : Server) (memory : HasMemory server) where
  reserve_request_buffer_lem :
      (buffer : RequestBuffer) (n : ℕ) (s : Session C)
      → IsWhole buffer
      → (room : RequestBuffer) × (reserve_request_buffer server buffer n s ≡ (some room, s))
        × IsWhole room
        × (n ≤ max_buffer_size → n ≤ length room.bytes)
  unfolding reserve_request_buffer
  reserve_request_buffer_lem buffer n s whole =
      elim (Bool-cases (leb n buffer.capacity || ltb max_buffer_size n)) [
        | inl enough ↦ rw enough (buffer, refl, whole, λ small. ground arith)
        | inr more ↦
            let (block, given, size) = memory buffer.bytes n (ground arith) in
            rw (more, given)
              (record { bytes = block; capacity = n }, refl, size, λ small. omega (arith, size))
      ]

-- The `result` of the loop behind the calls: an answered call sets it.
abbrev pub result_after : Bool → List Call → Bool
result_after result [] = result
result_after result (c ∷ cs) = true

still_true : (cs : List Call) → result_after true cs ≡ true
still_true [] = refl
still_true (c ∷ cs) = refl

module _ {C : Type 0} (Good : Disc C → Type 0) (size : ℕ) (img : Image)
    (serves : ServesBytes Good size img) (server : Server) (memory : HasMemory server) where
  -- The state of the loop behind the calls, with `fuel` left.
  pub record AfterCalls (calls : List Call) (enough fuel : ℕ) (result : Bool)
      (buffer : RequestBuffer) (s : Session C) : Type 0 where
    pub left : RequestBuffer
    pub state : Session C
    pub sent : List ℕ
    pub runs :
        transmit_loop server enough result buffer s
        ≡ transmit_loop server fuel (result_after result calls) left state
    pub answered : Answered Good size img calls sent
    pub moves : Moves s.socket state.socket (messages calls) sent
    pub good : Good state.disc

  transmit_loop-AfterCalls :
      (calls : List Call) (rest : List ℕ) (enough fuel : ℕ) (result : Bool) (buffer : RequestBuffer)
      (s : Session C)
      → AllMayCall calls
      → IsWhole buffer
      → Good s.disc
      → s.socket.incoming ≡ messages calls ++ rest
      → reply_room calls ≤ s.socket.room
      → enough ≡ length calls + fuel
      → AfterCalls calls enough fuel result buffer s
  unfolding transmit_loop
  transmit_loop-AfterCalls [] rest enough fuel result buffer s may whole good next room count =
      let same : enough ≡ fuel = omega (arith, count) in
      record {
        left = buffer;
        state = s;
        sent = [];
        runs = ap (λ n. transmit_loop server n result buffer s) same;
        answered = refl;
        moves = Moves-refl s.socket;
        good = good;
      }
  transmit_loop-AfterCalls (c ∷ cs) rest zero fuel result buffer s may whole good next room count =
      absurd (omega (arith, count))
  transmit_loop-AfterCalls (c ∷ cs) rest (suc enough) fuel result buffer s (may, mays) whole good
        next room count =
      let remaining = messages cs ++ rest in
      let message = request_message c.request in
      let order =
        append_assoc message (c.payload ++ messages cs) rest
        ∙ ap (λ x. message ++ x) (append_assoc c.payload (messages cs) rest) in
      let (done, bytes, left, same, moved) =
        read_exact-Moves request_bytes message (c.payload ++ remaining) s
          (length-request_message c.request) (next ∙ order) in
      let parsed = parse_request-message c.request may.fits in
      let stays : (c.request.command == cmd_disc) ≡ false = ground (arith, may.stays) in
      let t = (read_exact request_bytes s).1 in
      let (reserved, given, whole', large) =
        reserve_request_buffer_lem server memory buffer c.request.length t whole in
      let (size', capacity, replied) =
        answer-Replied Good size img serves server c reserved remaining t may.payload (rw same good)
          large left (omega (arith, moved.room)) in
      let done' = replied.2 in
      let out = answer server c.request reserved t in
      let later =
        transmit_loop-AfterCalls cs rest enough fuel true out.0.1 out.1 mays
          (size' ∙ whole' ∙ sym capacity) done'.good
          (append-cancel c.payload out.1.socket.incoming remaining
            (sym done'.moves.incoming ∙ left))
          (omega (
            arith,
            done'.moves.room,
            moved.room,
            length-Reply Good size img c.request replied.0 replied.1,
            room,
          ))
          (omega (arith, count)) in
      let first = Moves-trans message [] c.payload replied.0 moved done'.moves in
      let moves =
        Moves-trans (message ++ c.payload) replied.0 (messages cs) later.sent first later.moves in
      record {
        left = later.left;
        state = later.state;
        sent = replied.0 ++ later.sent;
        runs =
            rw (◌>>=◌, done, bytes, parsed, stays, given, done'.all_sent)
              (later.runs
                ∙ ap (λ r. transmit_loop server fuel r later.left later.state) (still_true cs));
        answered = (replied.0, later.sent, replied.1, later.answered, refl);
        moves =
            subst (λ k. Moves s.socket later.state.socket k (replied.0 ++ later.sent))
              (append_assoc message c.payload (messages cs)) moves;
        good = later.good;
      }

  -- The loop of `transmit` starts with an empty buffer and ends with the fuel that is left.
  pub transmit-AfterCalls :
      (calls : List Call) (rest : List ℕ) (s : Session C)
      → AllMayCall calls
      → Good s.disc
      → s.socket.incoming ≡ messages calls ++ rest
      → reply_room calls ≤ s.socket.room
      → AfterCalls calls
          (suc (length s.socket.incoming))
          (suc (length s.socket.incoming - length calls))
          false
          (record { bytes = []; capacity = 0 })
          s
  transmit-AfterCalls calls rest s may good next room =
      transmit_loop-AfterCalls calls rest (suc (length s.socket.incoming))
        (suc (length s.socket.incoming - length calls)) false (record { bytes = []; capacity = 0 })
        s may refl good next room
        (omega (arith, ap length next, length-append (messages calls) rest, length-messages calls))
