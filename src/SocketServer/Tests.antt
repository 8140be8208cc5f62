-- ===== src/SocketServer/Tests.antt =====
-- skynet-src/socket_server.c: a run of one socket, and the theorem there.
use paohuzi_server.Shared.{
  arith, Bool, ℕ, ◌≡◌, refl, true, false, Option, none, some, List, [], ◌∷◌, ◌++◌,
}
use paohuzi_server.SocketServer.{
  room, would_block, interrupted, Socket, connected, RequestSend, send_buffer, send_socket,
  send_list_tcp, append_sendbuffer, append_sendbuffer_low, write_direct, raise_uncomplete,
  after_low, send_low, send_nothing, force_close, close_socket, poll_write,
}
use paohuzi_server.SocketServer.WriteList.{stream}
use paohuzi_server.SocketServer.Order.{Package, contents, highs_of, lows_of, joined}
use paohuzi_server.SocketServer.Requests.{Ends}
use paohuzi_server.SocketServer.Drain.{send_buffer_drains}
use paohuzi_server.SocketServer.Delivery.{
  Event, send, writable, close, run, packages_in_order, new_socket,
}

abbrev ask : ℕ → List ℕ → RequestSend
ask at bytes = record { id = 7; buffer = at; so_buffer = at; so_bytes = bytes }

-- A package is sent in part, and two wait; the one of low priority is sent in part before another of
-- high priority comes; then the socket is closed.
abbrev events : List Event
events =
    send (room 1) (ask 100 (1 ∷ 2 ∷ 3 ∷ [])) true
    ∷ send would_block (ask 200 (4 ∷ 5 ∷ [])) true
    ∷ send would_block (ask 300 (6 ∷ [])) false
    ∷ writable (room 9 ∷ interrupted ∷ room 9 ∷ room 1 ∷ [])
    ∷ send would_block (ask 400 (8 ∷ [])) false
    ∷ close (would_block ∷ []) 7
    ∷ writable (room 2 ∷ room 2 ∷ [])
    ∷ writable []
    ∷ []

abbrev wire_of : Option (Socket × List Package) → List ℕ
wire_of none = []
wire_of (some (s, taken)) = s.wire

events_wire : wire_of (run (new_socket 7 connected) events) ≡ 1 ∷ 2 ∷ 3 ∷ 6 ∷ 4 ∷ 5 ∷ 8 ∷ []
unfolding run send_socket write_direct append_sendbuffer append_sendbuffer_low poll_write
    send_buffer send_list_tcp send_low after_low raise_uncomplete close_socket send_nothing
    force_close
events_wire = refl

-- An object with its bytes elsewhere, waiting with low priority, fails the assert of `send_buffer`.
abbrev object_waits : Socket
object_waits = record (new_socket 7 connected) {
  low = record { buffer = 100; ptr = 116; bytes = 1 ∷ [] } ∷ [];
}

send_buffer_object : send_buffer [] object_waits ≡ none
unfolding send_buffer
send_buffer_object = refl

packages_in_order_example :
    (s : Socket) × (taken : List Package) × (order : List Package) × (run
        (new_socket 7 connected)
        events
      ≡ some (s, taken))
    × (highs_of order ≡ highs_of taken)
    × (lows_of order ++ contents s.low ≡ lows_of taken)
    × (s.wire ++ stream s.high ≡ joined order)
    × Ends s
packages_in_order_example = packages_in_order 7 connected events refl (
  (tt, λ _. refl),
  ((tt, λ _. refl), ((tt, λ _. refl), (tt, ((tt, λ _. refl), (tt, (tt, (tt, tt))))))),
)

-- A socket with a package of each priority, of which the first was sent in part
abbrev two_wait : Socket
two_wait = record (new_socket 7 connected) {
  high = record { buffer = 100; ptr = 101; bytes = 2 ∷ 3 ∷ [] } ∷ [];
  low = record { buffer = 200; ptr = 200; bytes = 4 ∷ [] } ∷ [];
  wb_size = 3;
  waiting = true;
  wire = 1 ∷ [];
}

send_buffer_drains_example :
    (s' : Socket) × (closed : Bool) × (send_buffer (room 2 ∷ interrupted ∷ room 9 ∷ []) two_wait
      ≡ some (s', closed))
    × (s'.high ≡ [])
    × (s'.low ≡ [])
    × (s'.wire ≡ 1 ∷ 2 ∷ 3 ∷ 4 ∷ [])
send_buffer_drains_example =
    send_buffer_drains (room 2 ∷ interrupted ∷ room 9 ∷ []) two_wait refl (refl, tt)
      (omega arith, (omega arith, tt))
