-- ===== src/Nbd/Export/Moves.antt =====
-- How the calls of a session move the connection on.
use mathlib.Core.Path.{subst}
use gdox.Common.{
  ℕ, ◌+◌, ◌≤◌, ◌≡◌, refl, sym, ap, ◌∙◌, true, List, [], ◌∷◌, ◌++◌, append-nil, append_assoc, length,
  length-append, take, drop, ◌==◌, if◌then◌else◌, arith,
}
use gdox.Nbd.Wire.{simple_reply, put_be_u64}
use gdox.Nbd.Socket.{Socket, socket_read_exact, socket_write_all}
use gdox.Nbd.Session.{Session, pure, and_then, read_exact, write_all, send_simple_reply}

-- From one connection to the next, the server has taken some bytes and sent some.
pub record Moves (s s' : Socket) (taken sent : List ℕ) : Type 0 where
  pub incoming : s.incoming ≡ taken ++ s'.incoming
  pub outgoing : s'.outgoing ≡ s.outgoing ++ sent
  pub room : s.room ≡ s'.room + length sent

pub Moves-refl : (s : Socket) → Moves s s [] []
Moves-refl s = record {
  incoming = refl;
  outgoing = sym (append-nil s.outgoing);
  room = omega arith;
}

pub Moves-trans :
    {s t u : Socket} (taken sent taken' sent' : List ℕ)
    → Moves s t taken sent
    → Moves t u taken' sent'
    → Moves s u (taken ++ taken') (sent ++ sent')
Moves-trans {s} {t} {u} taken sent taken' sent' p q = record {
  incoming =
      p.incoming ∙ ap (λ x. taken ++ x) q.incoming ∙ sym (append_assoc taken taken' u.incoming);
  outgoing = q.outgoing ∙ ap (λ x. x ++ sent') p.outgoing ∙ append_assoc s.outgoing sent sent';
  room = omega (arith, p.room, q.room, length-append sent sent');
}

pub Moves-then :
    {s t u : Socket} (taken sent : List ℕ)
    → Moves s t taken []
    → Moves t u [] sent
    → Moves s u taken sent
Moves-then {s} {t} {u} taken sent p q = record {
  incoming = p.incoming ∙ ap (λ x. taken ++ x) q.incoming;
  outgoing = q.outgoing ∙ ap (λ x. x ++ sent) (p.outgoing ∙ append-nil s.outgoing);
  room = omega (arith, p.room, q.room);
}

take-append : (xs ys : List ℕ) → take (length xs) (xs ++ ys) ≡ xs
take-append [] ys = refl
take-append (x ∷ xs) ys = ap (λ t. x ∷ t) (take-append xs ys)

drop-append : (xs ys : List ℕ) → drop (length xs) (xs ++ ys) ≡ ys
drop-append [] ys = refl
drop-append (x ∷ xs) ys = drop-append xs ys

pub append-cancel : (xs ys zs : List ℕ) → xs ++ ys ≡ xs ++ zs → ys ≡ zs
append-cancel xs ys zs h =
    sym (drop-append xs ys) ∙ ap (λ l. drop (length xs) l) h ∙ drop-append xs zs

pub socket_write_all-Moves :
    (bytes : List ℕ) (s : Socket)
    → length bytes ≤ s.room
    → ((socket_write_all bytes s).0 ≡ true) × Moves s (socket_write_all bytes s).1 [] bytes
unfolding socket_write_all
socket_write_all-Moves bytes s h = ground arith

pub socket_read_exact-Moves :
    (bytes rest : List ℕ) (s : Socket)
    → s.incoming ≡ bytes ++ rest
    → ((socket_read_exact (length bytes) s).0 ≡ true)
      × ((socket_read_exact (length bytes) s).1 ≡ bytes)
      × ((socket_read_exact (length bytes) s).2.incoming ≡ rest)
      × Moves s (socket_read_exact (length bytes) s).2 bytes []
unfolding socket_read_exact
socket_read_exact-Moves bytes rest s h = ground (
  arith,
  length-append bytes rest,
  take-append bytes rest,
  drop-append bytes rest,
  append-nil s.outgoing,
)

pub length-simple_reply : (reply_error handle : ℕ) → length (simple_reply reply_error handle) ≡ 16
unfolding simple_reply put_be_u64
length-simple_reply reply_error handle = refl

pub write_all-Moves :
    {C : Type 0} (bytes : List ℕ) (s : Session C)
    → length bytes ≤ s.socket.room
    → let out = write_all bytes s in
      (out.0 ≡ true) × Moves s.socket out.1.socket [] bytes × (out.1.disc ≡ s.disc)
unfolding write_all
write_all-Moves bytes s h =
    let (sent, moved) = socket_write_all-Moves bytes s.socket h in (sent, moved, refl)

-- The second write of a reply, which is left out if it has nothing to send.
write_rest-Moves :
    {C : Type 0} (bytes : List ℕ) (s : Session C)
    → length bytes ≤ s.socket.room
    → let out = (if length bytes == 0 then pure true else write_all bytes) s in
      (out.0 ≡ true) × Moves s.socket out.1.socket [] bytes × (out.1.disc ≡ s.disc)
unfolding write_all
write_rest-Moves [] s h = (refl, Moves-refl s.socket, refl)
write_rest-Moves (b ∷ bs) s h = ground (arith, socket_write_all-Moves (b ∷ bs) s.socket)

-- A reply with room for it is sent whole.
pub send_simple_reply-Moves :
    {C : Type 0} (reply_error handle : ℕ) (bytes : List ℕ) (s : Session C)
    → 16 + length bytes ≤ s.socket.room
    → let out = send_simple_reply reply_error handle bytes s in
      (out.0 ≡ true)
      × Moves s.socket out.1.socket [] (simple_reply reply_error handle ++ bytes)
      × (out.1.disc ≡ s.disc)
unfolding send_simple_reply
send_simple_reply-Moves reply_error handle bytes s h =
    let head = simple_reply reply_error handle in
    let size = length-simple_reply reply_error handle in
    let (sent, moved, same) = write_all-Moves head s (omega arith) in
    let (sent', moved', same') =
      write_rest-Moves bytes (write_all head s).1 (omega (arith, moved.room)) in
    rw (sent, and_then) (sent', Moves-trans [] head [] bytes moved moved', same' ∙ same)

-- A message that the client has sent is read whole.
pub read_exact-Moves :
    {C : Type 0} (n : ℕ) (bytes rest : List ℕ) (s : Session C)
    → length bytes ≡ n
    → s.socket.incoming ≡ bytes ++ rest
    → let out = read_exact n s in
      (out.0.0 ≡ true)
      × (out.0.1 ≡ bytes)
      × (out.1.socket.incoming ≡ rest)
      × (out.1.disc ≡ s.disc)
      × Moves s.socket out.1.socket bytes []
unfolding read_exact
read_exact-Moves n bytes rest s size next =
    let (done, same, left, moved) =
      subst
        (λ k.
          let out = socket_read_exact k s.socket in
          (out.0 ≡ true)
          × (out.1 ≡ bytes)
          × (out.2.incoming ≡ rest)
          × Moves s.socket out.2 bytes [])
        size (socket_read_exact-Moves bytes rest s.socket next) in
    (done, same, left, refl, moved)
