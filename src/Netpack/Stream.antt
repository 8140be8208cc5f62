-- ===== src/Netpack/Stream.antt =====
-- lualib/snax/gateserver.lua: the driver of lua-netpack.c, where no handler of a package yields.
use paohuzi_server.Shared.{
  Bool, true, false, leb, ◌-◌, update, ℕ, zero, suc, ◌+◌, ◌^◌, ◌<◌, ◌≡◌, Option, none, some, List,
  [], ◌∷◌, ◌++◌, ◌==◌, if◌then◌else◌, ◌>>=◌, length,
}
use paohuzi_server.Netpack.{
  Netpack, Queue, get_queue, queue_size, Event, nothing, packet, more, opened, closed, failed,
  warned, filter_data, pop,
}
use paohuzi_server.Netpack.Partial.{partial}
use paohuzi_server.Netpack.Frames.{parse}
use paohuzi_server.Netpack.Reads.{AllBytes}

-- What the functions in `gateserver.start` share: the queue of netpack, the table `connection`, where
-- nil is `none`, the clients and how many there may be, and the listening socket.
pub record Server : Type 0 where
  pub queue : Option Queue
  pub connection : ℕ → Option Bool
  pub client_number : ℕ
  pub maxclient : ℕ
  pub socket : Option ℕ

abbrev pub is_open : Option Bool → Bool
is_open none = false
is_open (some b) = b

-- `dispatch_msg` for each of some packages: those that the handler of the server gets
unfoldable pub dispatch_msg : (ℕ → Option Bool) → List Netpack → List Netpack
dispatch_msg connection [] = []
dispatch_msg connection (np ∷ l) =
    let rest = dispatch_msg connection l in if is_open (connection np.id) then np ∷ rest else rest

-- The loop of `dispatch_queue`, with fuel: `netpack.pop` until it gives nothing.
unfoldable pub dispatch_queue : ℕ → Option Queue → Option (Option Queue × List Netpack)
dispatch_queue zero o = none
dispatch_queue (suc fuel) o = pop o >>= λ r. elim (r.1) [
  | none ↦ some (r.0, [])
  | some np ↦ dispatch_queue fuel r.0 >>= λ s. some (s.0, np ∷ s.1)
]

-- `MSG.open`, but for the calls of the handler and of the socket driver
unfoldable pub open_fd : Server → ℕ → Server
open_fd sv fd =
    let opened_one = record sv {
      connection = update sv.connection fd (some true);
      client_number = sv.client_number + 1;
    } in
    if leb sv.maxclient sv.client_number then sv else opened_one

-- `close_fd`
unfoldable pub close_fd : Server → ℕ → Server
close_fd sv fd = elim (sv.connection fd) [
  | none ↦ sv
  | some b ↦ record sv {
    connection = update sv.connection fd none;
    client_number = sv.client_number - 1;
  }
]

abbrev pub is_socket : Option ℕ → ℕ → Bool
is_socket none fd = false
is_socket (some s) fd = fd == s

-- The dispatch by `MSG`, with the packages given to the handler of the server.
unfoldable pub dispatch : Server → Event → Option (Server × List Netpack)
dispatch sv (packet fd buffer size) =
    some (sv, dispatch_msg sv.connection (record { id = fd; size = size; buffer = buffer } ∷ []))
dispatch sv more = dispatch_queue (get_queue sv.queue).cap sv.queue >>= λ r.
    some (record sv { queue = r.0 }, dispatch_msg sv.connection r.1)
dispatch sv nothing = some (sv, [])
dispatch sv (opened fd) = some (open_fd sv fd, [])
dispatch sv (closed fd) =
    some (if is_socket sv.socket fd then record sv { socket = none } else close_fd sv fd, [])
dispatch sv (failed fd) = some (if is_socket sv.socket fd then sv else close_fd sv fd, [])
dispatch sv (warned fd n) = some (sv, [])

-- Bytes that come for a socket: `unpack` and then `dispatch` of the socket protocol.
unfoldable pub receive_data : Server → ℕ → List ℕ → Option (Server × List Netpack)
receive_data sv fd chunk =
    filter_data sv.queue fd chunk >>= λ r. dispatch (record sv { queue = r.0 }) r.1

-- Bytes that come for several sockets, one after the other.
unfoldable pub receive_all : List (ℕ × List ℕ) → Server → Option (Server × List Netpack)
receive_all [] sv = some (sv, [])
receive_all ((fd, chunk) ∷ l) sv =
    receive_data sv fd chunk >>= λ r. receive_all l r.0 >>= λ s. some (s.0, r.1 ++ s.1)

-- The packages for a socket, and the bytes that came for it, in order.
abbrev pub packages_of : ℕ → List Netpack → List (List ℕ)
packages_of fd [] = []
packages_of fd (np ∷ l) =
    let rest = packages_of fd l in if np.id == fd then np.buffer ∷ rest else rest

abbrev pub bytes_of : ℕ → List (ℕ × List ℕ) → List ℕ
bytes_of fd [] = []
bytes_of fd ((g, chunk) ∷ l) = let rest = bytes_of fd l in if g == fd then chunk ++ rest else rest

-- Each package is told with its length.
abbrev pub AllSized : List Netpack → Type 0
AllSized [] = Unit
AllSized (np ∷ l) = (np.size ≡ length np.buffer) × AllSized l

-- Every piece is some bytes, as many as an `int` counts.
abbrev pub AllPieces : List (ℕ × List ℕ) → Type 0
AllPieces [] = Unit
AllPieces ((fd, chunk) ∷ l) =
    AllBytes chunk × (0 < length chunk) × (length chunk + queue_size + 1 < 2 ^ 31) × AllPieces l

-- The socket `fd` has the packages of its stream, and keeps the rest.
abbrev pub HasStream : Option Queue → List (ℕ × List ℕ) → Option Queue → List Netpack → ℕ → Type 0
HasStream o l o' out fd =
    (packages_of fd out, partial o' fd) ≡ parse (partial o fd ++ bytes_of fd l)

-- Of the packages and the rest of a stream, what is handed over and what is kept
abbrev pub handed_over : Bool → List (List ℕ) × List ℕ → List (List ℕ) × List ℕ
handed_over known s = (if known then s.0 else [], s.1)
