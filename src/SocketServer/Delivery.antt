-- ===== src/SocketServer/Delivery.antt =====
-- skynet-src/socket_server.c: what a socket sends over any sequence of calls.
use paohuzi_server.Shared.{
  ℕ, ◌≡◌, refl, sym, Bool, true, false, not, ◌||◌, Option, some, List, [], ◌∷◌, ◌++◌, ◌==◌,
  if◌then◌else◌, ◌>>=◌, append_assoc, append-nil, Bool-cases, inl, inr, subst,
}
use paohuzi_server.SocketServer.{
  Answer, Socket, SlotType, halfclose, RequestSend, is_reserve, is_invalid, close_now, send_buffer,
  send_buffer_empty, send_socket, close_socket, poll_write, no_write,
}
use paohuzi_server.SocketServer.WriteList.{stream, Works}
use paohuzi_server.SocketServer.Order.{
  Package, Ordered, Kept, still_open, contents, close_now-Kept, highs_of, lows_of, joined,
}
use paohuzi_server.SocketServer.Lows.{send_buffer_lem}
use paohuzi_server.SocketServer.Appends.{IsPlain}
use paohuzi_server.SocketServer.Requests.{Ends, asked, live_unless, send_socket_lem, empty_lists}

-- What happens to a socket: a request to send, the event that it can be written to, and a request to
-- close it when all is sent, without `shutdown`.
pub data Event : Type 0 where
  send : Answer → RequestSend → Bool → Event
  writable : List Answer → Event
  close : List Answer → ℕ → Event

abbrev handle_event : Socket → Event → Option (Socket × Bool)
handle_event s (send answer request low) = send_socket answer s request low
handle_event s (writable answers) = poll_write answers s
handle_event s (close answers id) = close_socket answers s id false

abbrev new_packages : Socket → Event → List Package
new_packages s (send answer request low) = asked s request low
new_packages s (writable answers) = []
new_packages s (close answers id) = []

-- The socket after the events, and the packages that were taken
unfoldable pub run : Socket → List Event → Option (Socket × List Package)
run s [] = some (s, [])
run s (e ∷ l) = handle_event s e >>= λ r. run r.0 l >>= λ t. some (t.0, new_packages s e ++ t.1)

-- Events on a connection that does not fail
abbrev pub Fine : Event → Type 0
Fine (send answer request low) = Works (answer ∷ []) × IsPlain request low
Fine (writable answers) = Works answers
Fine (close answers id) = Works answers

abbrev pub AllFine : List Event → Type 0
AllFine [] = Unit
AllFine (e ∷ l) = Fine e × AllFine l

poll_write_lem :
    {s : Socket} {all : List Package} (answers : List Answer)
    → Ordered s all
    → Ends s
    → Works answers
    → Kept (poll_write answers s) all
unfolding poll_write
poll_write_lem {s} answers o end w = elim (Bool-cases (no_write s.kind)) [
  | inl t ↦ record { socket = s; closed = false; returns = rw t refl; ordered = o; ended = end }
  | inr t ↦
      let k = send_buffer_lem answers o (live_unless no_write s.kind refl t) w in
      record {
        socket = k.socket;
        closed = k.closed;
        returns = rw t k.returns;
        ordered = k.ordered;
        ended = k.ended;
      }
]

-- The start of `close_socket`, which sends what it can
abbrev flush : List Answer → Socket → Option (Socket × Bool)
flush answers s = if send_buffer_empty s then some (s, false) else send_buffer answers s

flush_lem :
    {s : Socket} {all : List Package} (answers : List Answer)
    → Ordered s all
    → Ends s
    → is_invalid s.kind ≡ false
    → Works answers
    → Kept (flush answers s) all
flush_lem {s} answers o end live w = elim (Bool-cases (send_buffer_empty s)) [
  | inl t ↦ record { socket = s; closed = false; returns = rw t refl; ordered = o; ended = end }
  | inr t ↦
      let k = send_buffer_lem answers o live w in
      record {
        socket = k.socket;
        closed = k.closed;
        returns = rw t k.returns;
        ordered = k.ordered;
        ended = k.ended;
      }
]

-- Its end
abbrev finish : Socket → Bool → Option (Socket × Bool)
finish s closed =
    if closed
    then some (s, closed)
    else if send_buffer_empty s
    then close_now s
    else some (record s { kind = halfclose }, false)

finish_lem :
    {s : Socket} {all : List Package} (closed : Bool)
    → Ordered s all
    → Ends s
    → Kept (finish s closed) all
finish_lem {s} true o end = record {
  socket = s;
  closed = true;
  returns = refl;
  ordered = o;
  ended = end;
}
finish_lem {s} false o end = elim (Bool-cases (send_buffer_empty s)) [
  | inl t ↦
      let (eh, el) = empty_lists s.high s.low t in
      let k = close_now-Kept o eh el in
      record {
        socket = k.socket;
        closed = k.closed;
        returns = rw t k.returns;
        ordered = k.ordered;
        ended = k.ended;
      }
  | inr t ↦ record {
    socket = record s { kind = halfclose };
    closed = false;
    returns = rw t refl;
    ordered = record {
      order = o.order;
      highs = o.highs;
      lows = o.lows;
      out = o.out;
      fresh = o.fresh;
      size = o.size;
      usable = refl;
    };
    ended = still_open refl;
  }
]

close_socket_lem :
    {s : Socket} {all : List Package} (answers : List Answer) (id : ℕ)
    → Ordered s all
    → Ends s
    → Works answers
    → Kept (close_socket answers s id false) all
unfolding close_socket
close_socket_lem {s} answers id o end w =
    let other : Bool = not (s.id == id) in
    elim (Bool-cases (is_invalid s.kind || other)) [
      | inl t ↦ record { socket = s; closed = true; returns = rw t refl; ordered = o; ended = end }
      | inr t ↦
          let live = live_unless (λ k. is_invalid k || other) s.kind refl t in
          let k = flush_lem answers o end live w in
          let e = finish_lem k.closed k.ordered k.ended in
          record {
            socket = e.socket;
            closed = e.closed;
            returns = rw (t, k.returns) e.returns;
            ordered = e.ordered;
            ended = e.ended;
          }
    ]

handle_event_lem :
    {s : Socket} {all : List Package} (e : Event)
    → Ordered s all
    → Ends s
    → Fine e
    → Kept (handle_event s e) (all ++ new_packages s e)
handle_event_lem (send answer request low) o end f =
    send_socket_lem answer request low o end f.0 f.1
handle_event_lem {s} {all} (writable answers) o end f =
    subst (Kept (poll_write answers s)) (sym (append-nil all)) (poll_write_lem answers o end f)
handle_event_lem {s} {all} (close answers id) o end f =
    subst (Kept (close_socket answers s id false)) (sym (append-nil all))
      (close_socket_lem answers id o end f)

run_lem :
    (l : List Event) {s : Socket} {all : List Package}
    → Ordered s all
    → Ends s
    → AllFine l
    → (s' : Socket) × (more : List Package) × (run s l ≡ some (s', more))
      × Ordered s' (all ++ more)
      × Ends s'
unfolding run
run_lem [] {s} {all} o end f = (s, [], refl, subst (Ordered s) (sym (append-nil all)) o, end)
run_lem (e ∷ l) {s} {all} o end f =
    let k = handle_event_lem e o end f.0 in
    let (s', more, done, o', end') = run_lem l k.ordered k.ended f.1 in
    (
      s',
      new_packages s e ++ more,
      rw (k.returns, done) refl,
      subst (Ordered s') (append_assoc all (new_packages s e) more) o',
      end',
    )

-- A socket on which nothing was sent
abbrev pub new_socket : ℕ → SlotType → Socket
new_socket id kind = record {
  id = id;
  kind = kind;
  high = [];
  low = [];
  wb_size = 0;
  waiting = false;
  wire = [];
}

-- On a connection that does not fail, over any sequence of requests to send, writes and requests to
-- close without `shutdown`, no assert fails, where objects with their bytes elsewhere do not have the
-- low priority. Each package that is taken goes out whole and once, behind those of its priority that
-- were taken before, or is still in the lists; a socket is closed only when all is sent.
pub packages_in_order :
    (id : ℕ) (kind : SlotType) (l : List Event)
    → is_reserve kind ≡ false
    → AllFine l
    → (s : Socket) × (taken : List Package) × (order : List Package) × (run (new_socket id kind) l
        ≡ some (s, taken))
      × (highs_of order ≡ highs_of taken)
      × (lows_of order ++ contents s.low ≡ lows_of taken)
      × (s.wire ++ stream s.high ≡ joined order)
      × Ends s
packages_in_order id kind l usable f =
    let start : Ordered (new_socket id kind) [] = record {
      order = [];
      highs = refl;
      lows = refl;
      out = refl;
      fresh = tt;
      size = refl;
      usable = usable;
    } in
    let (s, taken, done, o, end) = run_lem l start (λ i. (refl, refl)) f in
    (s, taken, o.order, done, o.highs, o.lows, o.out, end)
