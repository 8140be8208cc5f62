-- ===== src/Gate.antt =====
-- service-src/databuffer.h and the part of service-src/service_gate.c that cuts the bytes of a
-- connection into packages and sends them on. `none` is a fault: a failed assert, an empty head, an
-- overflow of `int`. A chunk of bytes in a message is a list; the pool of messages is left out.
pub mod Buffer
pub mod Packages
pub mod Dispatch
pub mod Pieces
pub mod Delivery
mod Tests
use Prim.Native.Nat.{bit_or}
use paohuzi_server.Shared.{
  ℕ, zero, suc, ◌+◌, ◌-◌, ◌*◌, ◌^◌, Bool, true, false, not, Option, none, some, List, [], ◌∷◌, ◌++◌,
  ltb, leb, ◌==◌, if◌then◌else◌, ◌>>=◌, length, take, drop,
}

-- `struct databuffer`; `messages` are those from `head` to `tail`, and `header` the 32 bits of an `int`.
pub record DataBuffer : Type 0 where
  pub header : ℕ
  pub offset : ℕ
  pub size : ℕ
  pub messages : List (List ℕ)

-- The loop of `databuffer_read` from the message at the head, which `_return_message` takes off: the
-- bytes, and what offset and messages are left.
unfoldable pub read_loop : List (List ℕ) → ℕ → ℕ → Option (List ℕ × ℕ × List (List ℕ))
read_loop [] offset sz = none
read_loop (m ∷ l) offset sz =
    let bsz = length m - offset in
    let rest = read_loop l 0 (sz - bsz) >>= λ r. some (drop offset m ++ r.0, r.1, r.2) in
    if ltb (length m) offset
    then none
    else if ltb sz bsz
    then some (take sz (drop offset m), offset + sz, m ∷ l)
    else if bsz == sz
    then some (drop offset m, 0, l)
    else rest

-- `databuffer_read`
unfoldable pub databuffer_read : DataBuffer → ℕ → Option (List ℕ × DataBuffer)
databuffer_read db sz =
    let done = read_loop db.messages db.offset sz >>= λ r.
    some (r.0, record db { size = db.size - sz; offset = r.1; messages = r.2 }) in
    if ltb db.size sz then none else done

-- `databuffer_push`
unfoldable pub databuffer_push : DataBuffer → List ℕ → Option DataBuffer
databuffer_push db chunk =
    let size = db.size + length chunk in
    let pushed = record db { size = size; messages = db.messages ++ chunk ∷ [] } in
    if leb (2 ^ 31) size then none else some pushed

-- The bytes of a header as a number
unfoldable pub header_value : List ℕ → ℕ
header_value (a ∷ b ∷ c ∷ d ∷ _) = bit_or (bit_or (bit_or (a * 2 ^ 24) (b * 2 ^ 16)) (c * 2 ^ 8)) d
header_value (a ∷ b ∷ _) = bit_or (a * 2 ^ 8) b
header_value _ = 0

-- The result of `databuffer_readheader`: less than 0, or a size.
pub data HeaderRead : Type 0 where
  short : HeaderRead
  whole : ℕ → HeaderRead

-- The end of `databuffer_readheader`: an `int` with its high bit set is below 0.
unfoldable pub check_size : DataBuffer → HeaderRead
check_size db =
    if leb (2 ^ 31) db.header
    then short
    else if ltb db.size db.header
    then short
    else whole db.header

-- `databuffer_readheader`
unfoldable pub databuffer_readheader : DataBuffer → ℕ → Option (HeaderRead × DataBuffer)
databuffer_readheader db header_size =
    let parsed = databuffer_read db header_size >>= λ r.
    let db' = record r.1 { header = header_value r.0 } in some (check_size db', db') in
    if db.header == 0
    then (if ltb db.size header_size then some (short, db) else parsed)
    else some (check_size db, db)

-- `databuffer_reset` and `databuffer_clear`
unfoldable pub databuffer_reset : DataBuffer → DataBuffer
databuffer_reset db = record db { header = 0 }

unfoldable pub databuffer_clear : DataBuffer → DataBuffer
databuffer_clear db = record { header = 0; offset = 0; size = 0; messages = [] }

-- `struct connection`, but for the remote name
pub record Connection : Type 0 where
  pub id : ℕ
  pub agent : ℕ
  pub client : ℕ
  pub buffer : DataBuffer

-- `struct gate`: what the dispatch of a connection's bytes reads of it.
pub record Gate : Type 0 where
  pub watchdog : ℕ
  pub broker : ℕ
  pub client_tag : ℕ
  pub header_size : ℕ

-- The calls that leave the gate: `skynet_send` with source, destination, type and bytes, and
-- `skynet_socket_close` with the message to the log.
pub data Effect : Type 0 where
  send : ℕ → ℕ → ℕ → List ℕ → Effect
  close : ℕ → Effect
  log : Effect

abbrev pub tag_dontcopy : ℕ
tag_dontcopy = 0x10000

abbrev pub max_package : ℕ
max_package = 0x1000000

-- `data_text id` is what `snprintf` prints for `"%d data "`.
module _ (data_text : ℕ → List ℕ) where
  -- The message that `_forward` sends for a package, if it sends one.
  unfoldable pub message_for : Gate → Connection → Option (List ℕ → Effect)
  message_for g c =
      if not (g.broker == 0)
      then some (send 0 g.broker (bit_or g.client_tag tag_dontcopy))
      else if not (c.agent == 0)
      then some (send c.client c.agent (bit_or g.client_tag tag_dontcopy))
      else if not (g.watchdog == 0)
      then some (λ bytes. send 0 g.watchdog tag_dontcopy (data_text c.id ++ bytes))
      else none

  -- `_forward`
  unfoldable pub forward : Gate → Connection → ℕ → Option (List Effect × DataBuffer)
  forward g c size = elim (message_for g c) [
    | none ↦ some ([], c.buffer)
    | some message ↦ databuffer_read c.buffer size >>= λ r. some (message r.0 ∷ [], r.1)
  ]

  -- The loop of `dispatch_message`, with fuel
  unfoldable pub dispatch_loop : ℕ → Gate → Connection → Option (List Effect × Connection)
  dispatch_loop zero g c = none
  dispatch_loop (suc fuel) g c = databuffer_readheader c.buffer g.header_size >>= λ r.
      let c' = record c { buffer = r.1 } in
      elim r.0 [
        | short ↦ some ([], c')
        | whole size ↦
            let skip = dispatch_loop fuel g c' in
            let cut = some (close c.id ∷ (log ∷ []), record c { buffer = databuffer_clear r.1 }) in
            let next = forward g c' size >>= λ f.
            dispatch_loop fuel g (record c { buffer = databuffer_reset f.1 }) >>= λ s.
            some (f.0 ++ s.0, s.1) in
            if size == 0 then skip else if leb max_package size then cut else next
      ]

  -- `dispatch_message`; a round takes a byte at least.
  unfoldable pub dispatch_message : Gate → Connection → List ℕ → Option (List Effect × Connection)
  dispatch_message g c chunk = databuffer_push c.buffer chunk >>= λ db.
      dispatch_loop (db.size + 1) g (record c { buffer = db })
