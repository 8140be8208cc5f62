-- ===== src/SocketServer/Drain.antt =====
-- skynet-src/socket_server.c: `send_buffer` where the kernel has room.
use paohuzi_server.Shared.{
  ℕ, ◌-◌, ◌≤◌, ◌≡◌, refl, sym, ap, ◌∙◌, Bool, true, false, Option, some, List, [], ◌∷◌, ◌++◌, arith,
  ◌==◌, length, min, append_assoc, append-nil, Bool-cases, inl, inr, subst,
}
use paohuzi_server.SocketServer.{
  WriteBuffer, Answer, invalid, room, interrupted, would_block, failed, Socket, Sending,
  send_list_tcp, with_high, with_low, is_empty, is_reserve, is_halfclose, is_invalid, force_close,
  close_now, send_low, send_nothing, send_buffer,
}
use paohuzi_server.SocketServer.WriteList.{stream, send_list_tcp-whole}
use paohuzi_server.SocketServer.Order.{Fresh, Fresh-complete, is_empty-nil}
use paohuzi_server.SocketServer.Lows.{after_low_complete}

-- The kernel takes each of the buffers in one write, which signals may interrupt.
abbrev pub Roomy : List Answer → List WriteBuffer → Type 0
Roomy answers [] = Unit
Roomy [] (b ∷ l) = ⊥
Roomy (room n ∷ answers) (b ∷ l) = (length b.bytes ≤ n) × Roomy answers l
Roomy (interrupted ∷ answers) (b ∷ l) = Roomy answers (b ∷ l)
Roomy (would_block ∷ answers) (b ∷ l) = ⊥
Roomy (failed ∷ answers) (b ∷ l) = ⊥

-- All is sent, and there is room for what comes after.
record Drained (l more : List WriteBuffer) (wire : List ℕ) (r : Sending) : Type 0 where
  empty : r.list ≡ []
  written : r.wire ≡ wire ++ stream l
  unbroken : r.broken ≡ false
  roomy : Roomy r.answers more

send_list_tcp_all :
    (answers : List Answer) (l more : List WriteBuffer) (size : ℕ) (wire : List ℕ)
    → Roomy answers (l ++ more)
    → Drained l more wire (send_list_tcp answers l size wire)
unfolding send_list_tcp
send_list_tcp_all answers [] more size wire h = record {
  empty = refl;
  written = sym (append-nil wire);
  unbroken = refl;
  roomy = h;
}
send_list_tcp_all [] (b ∷ l) more size wire h = elim h [ ]
send_list_tcp_all (interrupted ∷ answers) (b ∷ l) more size wire h =
    send_list_tcp_all answers (b ∷ l) more size wire h
send_list_tcp_all (would_block ∷ answers) (b ∷ l) more size wire h = elim h [ ]
send_list_tcp_all (failed ∷ answers) (b ∷ l) more size wire h = elim h [ ]
send_list_tcp_all (room n ∷ answers) (b ∷ l) more size wire h =
    let t : (min n (length b.bytes) == length b.bytes) ≡ true = ground (arith, h.0) in
    let r = send_list_tcp_all answers l more (size - length b.bytes) (wire ++ b.bytes) h.1 in
    subst (Drained (b ∷ l) more wire) (sym (send_list_tcp-whole n answers b l size wire t))
      (record {
        empty = r.empty;
        written = r.written ∙ append_assoc wire b.bytes (stream l);
        unbroken = r.unbroken;
        roomy = r.roomy;
      })

-- The socket and its bytes after a call that leaves nothing
record Emptied (result : Option (Socket × Bool)) (wire : List ℕ) : Type 0 where
  socket : Socket
  closed : Bool
  returns : result ≡ some (socket, closed)
  high : socket.high ≡ []
  low : socket.low ≡ []
  sent : socket.wire ≡ wire

close_now_empty :
    (s : Socket)
    → is_reserve s.kind ≡ false
    → s.high ≡ []
    → s.low ≡ []
    → Emptied (close_now s) s.wire
unfolding force_close
close_now_empty s usable eh el = elim (Bool-cases (is_invalid s.kind)) [
  | inl t ↦ record {
    socket = s;
    closed = true;
    returns = rw t refl;
    high = eh;
    low = el;
    sent = refl;
  }
  | inr t ↦ record {
    socket = record s { kind = invalid; high = []; low = []; waiting = false };
    closed = true;
    returns = rw (t, usable) refl;
    high = refl;
    low = refl;
    sent = refl;
  }
]

send_nothing_empty :
    (s : Socket)
    → is_reserve s.kind ≡ false
    → s.high ≡ []
    → s.low ≡ []
    → Emptied (send_nothing s) s.wire
unfolding send_nothing
send_nothing_empty s usable eh el = elim (Bool-cases (is_halfclose s.kind)) [
  | inl t ↦
      let k = close_now_empty (record s { waiting = false }) usable eh el in
      record {
        socket = k.socket;
        closed = k.closed;
        returns = rw t k.returns;
        high = k.high;
        low = k.low;
        sent = k.sent;
      }
  | inr t ↦ record {
    socket = record s { waiting = false };
    closed = false;
    returns = rw t refl;
    high = eh;
    low = el;
    sent = refl;
  }
]

send_low_empty :
    (answers : List Answer) (s : Socket)
    → s.high ≡ []
    → Roomy answers (s.low ++ [])
    → Emptied (send_low answers s) (s.wire ++ stream s.low)
unfolding send_low
send_low_empty answers s eh h =
    let r = send_list_tcp_all answers s.low [] s.wb_size s.wire h in
    let s' : Socket = with_low s (send_list_tcp answers s.low s.wb_size s.wire) in
    record {
      socket = s';
      closed = false;
      returns = rw r.unbroken (after_low_complete s' (rw r.empty refl));
      high = eh;
      low = r.empty;
      sent = r.written;
    }

-- Where the kernel has room and each buffer of the low list points to the start of its object, one call
-- of `send_buffer` sends all that waits, the packages of high priority first, and leaves the lists empty, whether it closes the socket or not.
pub send_buffer_drains :
    (answers : List Answer) (s : Socket)
    → is_reserve s.kind ≡ false
    → Fresh s.low
    → Roomy answers (s.high ++ s.low)
    → (s' : Socket) × (closed : Bool) × (send_buffer answers s ≡ some (s', closed))
      × (s'.high ≡ [])
      × (s'.low ≡ [])
      × (s'.wire ≡ s.wire ++ (stream s.high ++ stream s.low))
unfolding send_buffer
send_buffer_drains answers s usable fresh h =
    let r = send_list_tcp_all answers s.high s.low s.wb_size s.wire h in
    let sent : Sending = send_list_tcp answers s.high s.wb_size s.wire in
    let s1 : Socket = with_high s sent in
    let t : is_empty sent.list ≡ true = rw r.empty refl in
    let complete = Fresh-complete s.low fresh in
    let all : sent.wire ++ stream s.low ≡ s.wire ++ (stream s.high ++ stream s.low) =
      ap (λ w. w ++ stream s.low) r.written ∙ append_assoc s.wire (stream s.high) (stream s.low) in
    elim (Bool-cases (is_empty s.low)) [
      | inl u ↦
          let el = is_empty-nil s.low u in
          let k = send_nothing_empty s1 usable r.empty el in
          let none_low : sent.wire ++ stream s.low ≡ sent.wire =
            ap (λ l. sent.wire ++ stream l) el ∙ append-nil sent.wire in
          (
            k.socket,
            k.closed,
            rw (complete, r.unbroken, t, u) k.returns,
            k.high,
            k.low,
            k.sent ∙ sym none_low ∙ all,
          )
      | inr u ↦
          let k =
            send_low_empty sent.answers s1 r.empty
              (subst (Roomy sent.answers) (sym (append-nil s.low)) r.roomy) in
          (
            k.socket,
            k.closed,
            rw (complete, r.unbroken, t, u) k.returns,
            k.high,
            k.low,
            k.sent ∙ all,
          )
    ]
