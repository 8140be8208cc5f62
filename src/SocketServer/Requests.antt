-- ===== src/SocketServer/Requests.antt =====
-- skynet-src/socket_server.c: what becomes of a request to send on a socket.
use paohuzi_server.Shared.{
  ◌≡◌, refl, sym, Bool, true, false, not, ◌||◌, ◌&&◌, List, [], ◌∷◌, ◌++◌, arith, ◌==◌,
  if◌then◌else◌, append-nil, Bool-cases, inl, inr, subst,
}
use paohuzi_server.SocketServer.{
  WriteBuffer, Answer, Socket, SlotType, invalid, reserve, plisten, listen, connecting, connected,
  halfclose, paccept, bind, RequestSend, is_empty, is_invalid, is_connected, refuses_send,
  send_buffer_empty, append_sendbuffer, append_sendbuffer_low, send_socket,
}
use paohuzi_server.SocketServer.WriteList.{Works}
use paohuzi_server.SocketServer.Order.{Package, Ordered, Kept, still_open, is_empty-nil}
use paohuzi_server.SocketServer.Appends.{
  packaged, IsPlain, append-Ordered, append_low-Ordered, write_direct_lem,
}

-- The packages that `send_socket` takes
abbrev pub asked : Socket → RequestSend → Bool → List Package
asked s request low =
    if refuses_send s.kind || not (s.id == request.id) then [] else packaged request low

-- A test that is true of SOCKET_TYPE_INVALID
pub live_unless :
    (test : SlotType → Bool) (kind : SlotType)
    → test invalid ≡ true
    → test kind ≡ false
    → is_invalid kind ≡ false
live_unless test invalid e h = cc
live_unless test reserve e h = refl
live_unless test plisten e h = refl
live_unless test listen e h = refl
live_unless test connecting e h = refl
live_unless test connected e h = refl
live_unless test halfclose e h = refl
live_unless test paccept e h = refl
live_unless test bind e h = refl

pub empty_lists :
    (high low : List WriteBuffer)
    → (is_empty high && is_empty low) ≡ true
    → (high ≡ []) × (low ≡ [])
empty_lists high low h =
    (is_empty-nil high (ground (arith, h)), is_empty-nil low (ground (arith, h)))

module _ {s : Socket} {all : List Package} (o : Ordered s all) (request : RequestSend) (low : Bool)
    (live : is_invalid s.kind ≡ false)
    (taken : (refuses_send s.kind || not (s.id == request.id)) ≡ false) where
  direct-Kept :
      (answer : Answer)
      → Works (answer ∷ [])
      → (send_buffer_empty s && is_connected s.kind) ≡ true
      → Kept (send_socket answer s request low) (all ++ packaged request low)
  unfolding send_socket
  direct-Kept answer w t =
      let none_left : send_buffer_empty s ≡ true = ground (arith, t) in
      let (eh, el) = empty_lists s.high s.low none_left in
      let k = write_direct_lem o request live eh el low answer w in
      record {
        socket = k.socket;
        closed = k.closed;
        returns = rw (taken, t) k.returns;
        ordered = k.ordered;
        ended = k.ended;
      }

  high-Kept :
      (answer : Answer)
      → (send_buffer_empty s && is_connected s.kind) ≡ false
      → low ≡ false
      → Kept (send_socket answer s request low) (all ++ packaged request low)
  unfolding send_socket append_sendbuffer
  high-Kept answer t u = record {
    socket = append_sendbuffer s request 0;
    closed = false;
    returns = rw (taken, t, u) refl;
    ordered = append-Ordered o request 0 low s.wire refl (still_open u);
    ended = still_open live;
  }

  low-Kept :
      (answer : Answer)
      → (send_buffer_empty s && is_connected s.kind) ≡ false
      → low ≡ true
      → request.so_buffer ≡ request.buffer
      → Kept (send_socket answer s request low) (all ++ packaged request low)
  unfolding send_socket append_sendbuffer_low
  low-Kept answer t u plain = record {
    socket = append_sendbuffer_low s request;
    closed = false;
    returns = rw (taken, t, u) refl;
    ordered =
        subst (λ b. Ordered (append_sendbuffer_low s request) (all ++ packaged request b)) (sym u)
          (append_low-Ordered o request plain);
    ended = still_open live;
  }

-- A socket whose lists are empty where it is closed
abbrev pub Ends : Socket → Type 0
Ends s = is_invalid s.kind ≡ true → (s.high ≡ []) × (s.low ≡ [])

refused-Kept :
    {s : Socket} {all : List Package} (answer : Answer) (request : RequestSend) (low : Bool)
    → Ordered s all
    → Ends s
    → (refuses_send s.kind || not (s.id == request.id)) ≡ true
    → Kept (send_socket answer s request low) all
unfolding send_socket
refused-Kept {s} answer request low o end t = record {
  socket = s;
  closed = false;
  returns = rw t refl;
  ordered = o;
  ended = end;
}

-- `send_socket` puts a package that it takes behind the others of its priority.
pub send_socket_lem :
    {s : Socket} {all : List Package} (answer : Answer) (request : RequestSend) (low : Bool)
    → Ordered s all
    → Ends s
    → Works (answer ∷ [])
    → IsPlain request low
    → Kept (send_socket answer s request low) (all ++ asked s request low)
send_socket_lem {s} {all} answer request low o end w plain =
    let mine : Bool = s.id == request.id in
    elim (Bool-cases (refuses_send s.kind || not mine)) [
      | inl t ↦
          subst (Kept (send_socket answer s request low)) (sym (rw t (append-nil all)))
            (refused-Kept answer request low o end t)
      | inr t ↦
          let live = live_unless (λ k. refuses_send k || not mine) s.kind refl t in
          let taken : all ++ asked s request low ≡ all ++ packaged request low = rw t refl in
          subst (Kept (send_socket answer s request low)) (sym taken)
            (elim (Bool-cases (send_buffer_empty s && is_connected s.kind)) [
              | inl u ↦ direct-Kept o request low live t answer w u
              | inr u ↦ elim (Bool-cases low) [
                | inl v ↦ low-Kept o request low live t answer u v (plain v)
                | inr v ↦ high-Kept o request low live t answer u v
              ]
            ])
    ]
