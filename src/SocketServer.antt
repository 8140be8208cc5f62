-- ===== src/SocketServer.antt =====
-- skynet-src/socket_server.c: what is sent on one TCP socket, with its two lists of buffers. What the
-- kernel answers to `write` is an argument: a list of answers, after which it would block. The bytes
-- that it took are `wire`. `none` is a failed assert.
pub mod WriteList
pub mod Order
pub mod Lows
pub mod Appends
pub mod Requests
pub mod Drain
pub mod Delivery
mod Tests
use paohuzi_server.Shared.{
  ℕ, zero, suc, ◌+◌, ◌-◌, Bool, true, false, ◌&&◌, ◌||◌, not, Option, none, some, List, [], ◌∷◌,
  ◌++◌, ltb, leb, ◌==◌, if◌then◌else◌, ◌>>=◌, length, take, drop, min,
}

-- `SOCKET_TYPE_INVALID` and so on
pub data SlotType : Type 0 where
  invalid : SlotType
  reserve : SlotType
  plisten : SlotType
  listen : SlotType
  connecting : SlotType
  connected : SlotType
  halfclose : SlotType
  paccept : SlotType
  bind : SlotType

-- `struct write_buffer`: the address of the object to free, that of the bytes to send, and the bytes.
pub record WriteBuffer : Type 0 where
  pub buffer : ℕ
  pub ptr : ℕ
  pub bytes : List ℕ

-- `struct socket`, with whether it waits for the event that it can be written to.
pub record Socket : Type 0 where
  pub id : ℕ
  pub kind : SlotType
  pub high : List WriteBuffer
  pub low : List WriteBuffer
  pub wb_size : ℕ
  pub waiting : Bool
  pub wire : List ℕ

-- What `write` finds: room for some bytes, EINTR, EAGAIN, or another error.
pub data Answer : Type 0 where
  room : ℕ → Answer
  interrupted : Answer
  would_block : Answer
  failed : Answer

-- `struct request_send`, with what `send_object_init` finds in it
pub record RequestSend : Type 0 where
  pub id : ℕ
  pub buffer : ℕ
  pub so_buffer : ℕ
  pub so_bytes : List ℕ

abbrev pub is_invalid : SlotType → Bool
is_invalid invalid = true
is_invalid _ = false

abbrev pub is_reserve : SlotType → Bool
is_reserve reserve = true
is_reserve _ = false

abbrev pub is_connected : SlotType → Bool
is_connected connected = true
is_connected _ = false

abbrev pub is_halfclose : SlotType → Bool
is_halfclose halfclose = true
is_halfclose _ = false

-- The types that `send_socket` refuses
abbrev pub refuses_send : SlotType → Bool
refuses_send invalid = true
refuses_send halfclose = true
refuses_send paccept = true
refuses_send plisten = true
refuses_send listen = true
refuses_send _ = false

-- `force_close`
unfoldable pub force_close : Socket → Option Socket
force_close s =
    let closed = record s { kind = invalid; high = []; low = []; waiting = false } in
    if is_invalid s.kind then some s else if is_reserve s.kind then none else some closed

-- What `send_list_tcp` changes; `broken` where it closes the socket, and the answers left.
pub record Sending : Type 0 where
  pub list : List WriteBuffer
  pub wb_size : ℕ
  pub wire : List ℕ
  pub broken : Bool
  pub answers : List Answer

-- The buffer after a write of `sz` of its bytes
abbrev pub advance_buffer : WriteBuffer → ℕ → WriteBuffer
advance_buffer b sz = record b { ptr = b.ptr + sz; bytes = drop sz b.bytes }

-- `send_list_tcp`, but for `force_close`
unfoldable pub send_list_tcp : List Answer → List WriteBuffer → ℕ → List ℕ → Sending
send_list_tcp answers [] size wire = record {
  list = [];
  wb_size = size;
  wire = wire;
  broken = false;
  answers = answers;
}
send_list_tcp [] (b ∷ l) size wire = record {
  list = b ∷ l;
  wb_size = size;
  wire = wire;
  broken = false;
  answers = [];
}
send_list_tcp (interrupted ∷ answers) (b ∷ l) size wire = send_list_tcp answers (b ∷ l) size wire
send_list_tcp (would_block ∷ answers) (b ∷ l) size wire = record {
  list = b ∷ l;
  wb_size = size;
  wire = wire;
  broken = false;
  answers = answers;
}
send_list_tcp (failed ∷ answers) (b ∷ l) size wire = record {
  list = b ∷ l;
  wb_size = size;
  wire = wire;
  broken = true;
  answers = answers;
}
send_list_tcp (room n ∷ answers) (b ∷ l) size wire =
    let sz = min n (length b.bytes) in
    let sent = wire ++ take sz b.bytes in
    let rest = send_list_tcp answers l (size - sz) sent in
    if sz == length b.bytes then rest else record {
      list = advance_buffer b sz ∷ l;
      wb_size = size - sz;
      wire = sent;
      broken = false;
      answers = answers;
    }

-- `list_uncomplete`
abbrev pub list_uncomplete : List WriteBuffer → Bool
list_uncomplete [] = false
list_uncomplete (b ∷ l) = not (b.ptr == b.buffer)

-- `raise_uncomplete`
unfoldable pub raise_uncomplete : Socket → Option Socket
raise_uncomplete s = raised s.high s.low
  where
    raised : List WriteBuffer → List WriteBuffer → Option Socket
    raised [] (b ∷ l) = some (record s { high = b ∷ []; low = l })
    raised high low = none

abbrev pub is_empty : List WriteBuffer → Bool
is_empty [] = true
is_empty (b ∷ l) = false

-- The end of `send_buffer`, after the low list was sent
unfoldable pub after_low : Socket → Option (Socket × Bool)
after_low s =
    let raised = raise_uncomplete s >>= λ s'. some (s', false) in
    if list_uncomplete s.low then raised else some (s, false)

abbrev pub with_high : Socket → Sending → Socket
with_high s r = record s { high = r.list; wb_size = r.wb_size; wire = r.wire }

abbrev pub with_low : Socket → Sending → Socket
with_low s r = record s { low = r.list; wb_size = r.wb_size; wire = r.wire }

abbrev pub close_now : Socket → Option (Socket × Bool)
close_now s = force_close s >>= λ s'. some (s', true)

-- Step 2 and 3 of `send_buffer`
unfoldable pub send_low : List Answer → Socket → Option (Socket × Bool)
send_low answers s =
    let r = send_list_tcp answers s.low s.wb_size s.wire in
    if r.broken then close_now (with_low s r) else after_low (with_low s r)

-- Step 4
unfoldable pub send_nothing : Socket → Option (Socket × Bool)
send_nothing s =
    let idle = record s { waiting = false } in
    if is_halfclose s.kind then close_now idle else some (idle, false)

-- `send_buffer`; the result says whether it is SOCKET_CLOSE.
unfoldable pub send_buffer : List Answer → Socket → Option (Socket × Bool)
send_buffer answers s =
    let r = send_list_tcp answers s.high s.wb_size s.wire in
    let s' = with_high s r in
    let next = if is_empty s'.low then send_nothing s' else send_low r.answers s' in
    let on = if is_empty s'.high then next else some (s', false) in
    if list_uncomplete s.low then none else if r.broken then close_now s' else on

-- `append_sendbuffer_`, for a request of which `n` bytes were sent
abbrev pub new_buffer : RequestSend → ℕ → WriteBuffer
new_buffer request n = record {
  buffer = request.buffer;
  ptr = request.so_buffer + n;
  bytes = drop n request.so_bytes;
}

-- `append_sendbuffer`
unfoldable pub append_sendbuffer : Socket → RequestSend → ℕ → Socket
append_sendbuffer s request n =
    let b = new_buffer request n in
    record s { high = s.high ++ b ∷ []; wb_size = s.wb_size + length b.bytes }

-- `append_sendbuffer_low`
unfoldable pub append_sendbuffer_low : Socket → RequestSend → Socket
append_sendbuffer_low s request =
    let b = new_buffer request 0 in
    record s { low = s.low ++ b ∷ []; wb_size = s.wb_size + length b.bytes }

abbrev pub send_buffer_empty : Socket → Bool
send_buffer_empty s = is_empty s.high && is_empty s.low

-- The first write of `send_socket`; EINTR counts as no bytes.
unfoldable pub write_direct : Answer → Socket → RequestSend → Option (Socket × Bool)
write_direct failed s request = close_now s
write_direct (room n) s request =
    let sz = min n (length request.so_bytes) in
    let s' = record s { wire = s.wire ++ take sz request.so_bytes } in
    if sz == length request.so_bytes
    then some (s', false)
    else some (record (append_sendbuffer s' request sz) { waiting = true }, false)
write_direct answer s request =
    if length request.so_bytes == 0
    then some (s, false)
    else some (record (append_sendbuffer s request 0) { waiting = true }, false)

-- `send_socket` for TCP, with whether the priority is PRIORITY_LOW
unfoldable pub send_socket : Answer → Socket → RequestSend → Bool → Option (Socket × Bool)
send_socket answer s request is_low =
    let kept = if is_low then append_sendbuffer_low s request else append_sendbuffer s request 0 in
    if refuses_send s.kind || not (s.id == request.id)
    then some (s, false)
    else if send_buffer_empty s && is_connected s.kind
    then write_direct answer s request
    else some (kept, false)

-- `close_socket`
unfoldable pub close_socket : List Answer → Socket → ℕ → Bool → Option (Socket × Bool)
close_socket answers s id shutdown =
    let sent = if send_buffer_empty s then some (s, false) else send_buffer answers s in
    let ending = sent >>= λ r.
    if r.1
    then some r
    else if shutdown || send_buffer_empty r.0
    then close_now r.0
    else some (record (r.0) { kind = halfclose }, false) in
    if is_invalid s.kind || not (s.id == id) then some (s, true) else ending

-- The types for which `socket_server_poll` does not write to a socket
abbrev pub no_write : SlotType → Bool
no_write connecting = true
no_write listen = true
no_write invalid = true
no_write _ = false

-- `socket_server_poll` on the event that a socket can be written to
unfoldable pub poll_write : List Answer → Socket → Option (Socket × Bool)
poll_write answers s =
    let sent = send_buffer answers s in if no_write s.kind then some (s, false) else sent
