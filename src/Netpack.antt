-- ===== src/Netpack.antt =====
-- lualib-src/lua-netpack.c: packages of two length bytes and data, cut out of the data that arrives
-- on sockets. A buffer is the list of the bytes copied into it. `none` is a fault: an access out of
-- range, or an overflow of `int`. The queue is null until the first package is kept.
pub mod Frames
pub mod Ring
pub mod Partial
pub mod Reads
pub mod Fill
pub mod Filter
pub mod Stream
pub mod Delivery
mod Tests
use Prim.Native.Nat.{bit_or, bit_and}
use paohuzi_server.Shared.{
  ℕ, zero, suc, ◌+◌, ◌-◌, ◌*◌, ◌/◌, ◌%◌, ◌^◌, Bool, true, false, Option, none, some, List, [], ◌∷◌,
  ◌++◌, ltb, leb, ◌==◌, if◌then◌else◌, ◌>>=◌, update, length, take, drop,
}
use paohuzi_server.Shared.Int.{ℤ, pos, negsuc}

abbrev pub queue_size : ℕ
queue_size = 1024

abbrev pub hash_size : ℕ
hash_size = 4096

-- `struct netpack`
pub record Netpack : Type 0 where
  pub id : ℕ
  pub size : ℕ
  pub buffer : List ℕ

-- `struct uncomplete`; `read` is -1 where only the first length byte has come, in `header`.
pub record Uncomplete : Type 0 where
  pub pack : Netpack
  pub read : ℤ
  pub header : ℕ

-- `struct queue`; a chain of `hash` is the list of its nodes, and a cell never written is `none`.
pub record Queue : Type 0 where
  pub cap : ℕ
  pub head : ℕ
  pub tail : ℕ
  pub hash : ℕ → List Uncomplete
  pub queue : ℕ → Option Netpack

-- `hash_fd`, for a socket id that is not negative
unfoldable pub hash_fd : ℕ → ℕ
hash_fd fd = (fd / 2 ^ 24 + fd / 2 ^ 12 + fd) % 2 ^ 32 % hash_size

-- The walk of `find_uncomplete` along a chain: the node found, and the chain without it.
unfoldable pub unlink_node : ℕ → List Uncomplete → Option Uncomplete × List Uncomplete
unlink_node fd [] = (none, [])
unlink_node fd (uc ∷ chain) =
    let (found, rest) = unlink_node fd chain in
    if uc.pack.id == fd then (some uc, chain) else (found, uc ∷ rest)

-- `find_uncomplete`
unfoldable pub find_uncomplete : Option Queue → ℕ → Option Uncomplete × Option Queue
find_uncomplete none fd = (none, none)
find_uncomplete (some q) fd =
    let (found, rest) = unlink_node fd (q.hash (hash_fd fd)) in
    (found, some (record q { hash = update q.hash (hash_fd fd) rest }))

-- `get_queue`
unfoldable pub get_queue : Option Queue → Queue
get_queue (some q) = q
get_queue none = record { cap = queue_size; head = 0; tail = 0; hash = λ _. []; queue = λ _. none }

-- The copying loop of `expand_queue`, after `n` rounds.
unfoldable pub copy_packs : Queue → ℕ → ℕ → Option Netpack
copy_packs q zero = λ _. none
copy_packs q (suc n) = update (copy_packs q n) n (q.queue ((q.head + n) % q.cap))

-- `expand_queue`
unfoldable pub expand_packs : Queue → Option Queue
expand_packs q =
    if ltb (q.cap + queue_size) (2 ^ 31)
    then some (record {
      cap = q.cap + queue_size;
      head = 0;
      tail = q.cap;
      hash = q.hash;
      queue = copy_packs q q.cap;
    })
    else none

-- `push_data`; whether the bytes are cloned decides only who frees them.
unfoldable pub push_data : Option Queue → ℕ → List ℕ → ℕ → Option Queue
push_data o fd buffer size =
    let q = get_queue o in
    let np : Netpack = record { id = fd; size = size; buffer = buffer } in
    let tail = if leb q.cap (q.tail + 1) then q.tail + 1 - q.cap else q.tail + 1 in
    let q' = record q { queue = update q.queue q.tail (some np); tail = tail } in
    if ltb q.tail q.cap then (if q.head == tail then expand_packs q' else some q') else none

-- `q->hash[h] = uc`, before the rest of the chain
unfoldable pub link_node : Queue → ℕ → Uncomplete → Queue
link_node q fd uc = record q { hash = update q.hash (hash_fd fd) (uc ∷ q.hash (hash_fd fd)) }

-- `save_uncomplete`, with the fields that its callers set
unfoldable pub save_uncomplete : Option Queue → ℕ → ℤ → ℕ → ℕ → List ℕ → Queue
save_uncomplete o fd read header size buffer = link_node (get_queue o) fd (record {
  pack = record { id = fd; size = size; buffer = buffer };
  read = read;
  header = header;
})

-- `read_size`
unfoldable pub read_size : ℕ → ℕ → ℕ
read_size high low = bit_or (high * 2 ^ 8) low

-- `push_more`, with fuel for its calls of itself.
unfoldable pub push_more : ℕ → Option Queue → ℕ → List ℕ → Option Queue
push_more zero o fd buffer = none
push_more (suc fuel) o fd [] = none
push_more (suc fuel) o fd (high ∷ []) = some (save_uncomplete o fd (negsuc 0) high 0 [])
push_more (suc fuel) o fd (high ∷ low ∷ buffer) =
    let pack_size = read_size high low in
    let keep = some (save_uncomplete o fd (pos (length buffer)) 0 pack_size buffer) in
    let push = push_data o fd (take pack_size buffer) pack_size >>= λ q.
    if ltb 0 (length buffer - pack_size)
    then push_more fuel (some q) fd (drop pack_size buffer)
    else some q in
    if ltb (length buffer) pack_size then keep else push

-- What `filter` returns beside the queue.
pub data Event : Type 0 where
  nothing : Event
  packet : ℕ → List ℕ → ℕ → Event
  more : Event
  opened : ℕ → Event
  closed : ℕ → Event
  failed : ℕ → Event
  warned : ℕ → ℕ → Event

-- `filter_data_` for a package cut short that has `n` of its bytes, and the bytes that came.
unfoldable pub fill : Option Queue → ℕ → Uncomplete → ℕ → List ℕ → Option (Option Queue × Event)
fill o fd uc n buffer =
    let size = uc.pack.size in
    let need = size - n in
    let kept = take n uc.pack.buffer ++ buffer in
    let whole = take n uc.pack.buffer ++ take need buffer in
    let keep =
      link_node (get_queue o) fd
        (record uc { pack = record (uc.pack) { buffer = kept }; read = pos (n + length buffer) }) in
    let later = push_data o fd whole size >>= λ q.
    push_more (length buffer) (some q) fd (drop need buffer) >>= λ q'. some (some q', more) in
    if ltb (length buffer) need
    then some (some keep, nothing)
    else if length buffer == need
    then some (o, packet fd whole size)
    else later

-- The first part of `filter_data_` for a package cut short: the second length byte may be missing.
unfoldable pub resume : Option Queue → ℕ → Uncomplete → ℤ → List ℕ → Option (Option Queue × Event)
resume o fd uc (pos n) buffer = fill o fd uc n buffer
resume o fd uc (negsuc zero) [] = none
resume o fd uc (negsuc zero) (low ∷ buffer) =
    fill o fd
      (record uc {
        pack = record (uc.pack) { size = read_size (uc.header) low; buffer = [] };
        read = pos 0;
      })
      0 buffer
resume o fd uc (negsuc (suc k)) buffer = none

-- `filter_data_` where no package was cut short.
unfoldable pub start_package : Option Queue → ℕ → List ℕ → Option (Option Queue × Event)
start_package o fd [] = none
start_package o fd (high ∷ []) = some (some (save_uncomplete o fd (negsuc 0) high 0 []), nothing)
start_package o fd (high ∷ low ∷ buffer) =
    let pack_size = read_size high low in
    let keep = save_uncomplete o fd (pos (length buffer)) 0 pack_size buffer in
    let later = push_data o fd (take pack_size buffer) pack_size >>= λ q.
    push_more (length buffer) (some q) fd (drop pack_size buffer) >>= λ q'. some (some q', more) in
    if ltb (length buffer) pack_size
    then some (some keep, nothing)
    else if length buffer == pack_size
    then some (o, packet fd buffer (length buffer))
    else later

-- `filter_data_`
unfoldable pub filter_data : Option Queue → ℕ → List ℕ → Option (Option Queue × Event)
filter_data o fd buffer =
    let (found, o') = find_uncomplete o fd in
    elim found [ none ↦ start_package o' fd buffer | some uc ↦ resume o' fd uc uc.read buffer ]

-- `close_uncomplete`
unfoldable pub close_uncomplete : Option Queue → ℕ → Option Queue
close_uncomplete o fd = (find_uncomplete o fd).1

-- The types of `struct skynet_socket_message`, and one for any other value.
pub data SocketType : Type 0 where
  socket_data socket_connect socket_close socket_accept socket_error : SocketType
  socket_warning socket_other : SocketType

-- `lfilter`; the text that comes with two of the events is left out.
unfoldable pub filter : Option Queue → SocketType → ℕ → ℕ → List ℕ → Option (Option Queue × Event)
filter o socket_data id ud buffer = filter_data o id buffer
filter o socket_connect id ud buffer = some (o, nothing)
filter o socket_close id ud buffer = some (close_uncomplete o id, closed id)
filter o socket_accept id ud buffer = some (o, opened ud)
filter o socket_error id ud buffer = some (close_uncomplete o id, failed id)
filter o socket_warning id ud buffer = some (o, warned id ud)
filter o socket_other id ud buffer = some (o, nothing)

-- `lpop`
unfoldable pub pop : Option Queue → Option (Option Queue × Option Netpack)
pop none = some (none, none)
pop (some q) =
    if q.head == q.tail
    then some (some q, none)
    else (if ltb q.head q.cap then q.queue q.head else none) >>= λ np.
        some (some (record q { head = if leb q.cap (q.head + 1) then 0 else q.head + 1 }), some np)

-- `lpack`: an error, or the bytes with their length before them.
unfoldable pub pack : List ℕ → Option (List ℕ)
pack bytes =
    let len = length bytes in
    if leb (2 ^ 16) len
    then none
    else some (bit_and (len / 2 ^ 8) (2 ^ 8 - 1) ∷ bit_and len (2 ^ 8 - 1) ∷ bytes)

-- `lclear`; the memory that it frees is not modelled.
unfoldable pub clear : Option Queue → Option Queue
clear none = none
clear (some q) = some (record q { hash = λ _. []; head = 0; tail = 0 })
