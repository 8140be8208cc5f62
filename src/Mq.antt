-- ===== src/Mq.antt =====
-- skynet-src/skynet_mq.c: the queue of one service, a ring of messages that doubles when it is
-- full, and the global queue, a list of message queues linked through their `next` fields.
-- A function that the code runs under a spin lock is one step. `none` is a fault: a failed assert,
-- an access out of range or of a cell never written, a dangling pointer, an overflow of `int`.
pub mod Ring
pub mod Run
pub mod Threshold
pub mod Global
pub mod Queues
mod Tests
use paohuzi_server.Shared.{
  ℕ, zero, suc, ◌+◌, ◌-◌, ◌*◌, ◌%◌, ◌^◌, Bool, true, false, Option, none, some, List, [], ◌∷◌, ltb,
  leb, ◌==◌, if◌then◌else◌, ◌>>=◌, update,
}

-- `struct skynet_message`; `addr` is the pointer `data`, `size` is `sz`.
pub record Message : Type 0 where
  pub source : ℕ
  pub session : ℕ
  pub addr : ℕ
  pub size : ℕ

-- `struct message_queue`; a cell that was never written is `none`, and so is a null `next`.
pub record MessageQueue : Type 0 where
  pub handle : ℕ
  pub cap : ℕ
  pub head : ℕ
  pub tail : ℕ
  pub release : Bool
  pub in_global : Bool
  pub overload : ℕ
  pub overload_threshold : ℕ
  pub queue : ℕ → Option Message
  pub next : Option ℕ

abbrev pub default_queue_size : ℕ
default_queue_size = 64

abbrev pub mq_overload : ℕ
mq_overload = 1024

-- One more than the largest `int`.
abbrev pub int_limit : ℕ
int_limit = 2 ^ 31

-- `skynet_mq_create`
unfoldable pub create : ℕ → MessageQueue
create handle = record {
  handle = handle;
  cap = default_queue_size;
  head = 0;
  tail = 0;
  release = false;
  in_global = true;
  overload = 0;
  overload_threshold = mq_overload;
  queue = λ _. none;
  next = none;
}

-- `skynet_mq_length`
unfoldable pub mq_length : MessageQueue → ℕ
mq_length q = if leb q.head q.tail then q.tail - q.head else q.tail + q.cap - q.head

-- `skynet_mq_overload`
unfoldable pub take_overload : MessageQueue → MessageQueue × ℕ
take_overload q = if q.overload == 0 then (q, 0) else (record q { overload = 0 }, q.overload)

-- The loop at the end of `skynet_mq_pop`, with fuel.
unfoldable pub raise_threshold : ℕ → ℕ → MessageQueue → MessageQueue
raise_threshold zero length q = q
raise_threshold (suc fuel) length q =
    let again =
      raise_threshold fuel length
        (record q { overload = length; overload_threshold = q.overload_threshold * 2 }) in
    if ltb q.overload_threshold length then again else q

-- What `skynet_mq_pop` does to the counters after it has read the message at `head`.
unfoldable pub advance : MessageQueue → MessageQueue
advance q =
    let head = if leb q.cap (q.head + 1) then 0 else q.head + 1 in
    let length = if ltb q.tail head then q.tail + q.cap - head else q.tail - head in
    raise_threshold length length (record q { head = head })

-- `skynet_mq_pop`; the result is `none` where the code returns 1.
unfoldable pub mq_pop : MessageQueue → Option (MessageQueue × Option Message)
mq_pop q =
    if q.head == q.tail
    then some (record q { overload_threshold = mq_overload; in_global = false }, none)
    else (if ltb q.head q.cap then q.queue q.head else none) >>= λ m. some (advance q, some m)

-- The copying loop of `expand_queue`, after `n` rounds.
unfoldable pub copy_cells : MessageQueue → ℕ → ℕ → Option Message
copy_cells q zero = λ _. none
copy_cells q (suc n) = update (copy_cells q n) n (q.queue ((q.head + n) % q.cap))

-- `expand_queue`
unfoldable pub expand_queue : MessageQueue → Option MessageQueue
expand_queue q =
    if ltb (q.cap * 2) int_limit
    then some (record q { queue = copy_cells q q.cap; head = 0; tail = q.cap; cap = q.cap * 2 })
    else none

-- The part of `skynet_mq_push` that stores the message.
unfoldable pub store_message : MessageQueue → Message → Option MessageQueue
store_message q m =
    let tail = if leb q.cap (q.tail + 1) then 0 else q.tail + 1 in
    let q' = record q { queue = update q.queue q.tail (some m); tail = tail } in
    if ltb q.tail q.cap then (if q.head == tail then expand_queue q' else some q') else none

-- The message queues by address, and the static `Q`.
pub record World : Type 0 where
  pub heap : ℕ → Option MessageQueue
  pub head : Option ℕ
  pub tail : Option ℕ

-- `p->... = ...` for the message queue at `a`
abbrev pub put : World → ℕ → MessageQueue → World
put w a q = record w { heap = update w.heap a (some q) }

abbrev pub require_null : Option ℕ → World → Option World
require_null none w = some w
require_null (some _) w = none

-- `q->tail->next = queue`, for the tail at `t`
unfoldable pub link_last : World → ℕ → ℕ → Option World
link_last w t a = w.heap t >>= λ last. some (put w t (record last { next = some a }))

-- The two cases of `skynet_globalmq_push`.
unfoldable pub append_global : Option ℕ → ℕ → World → Option World
append_global none a w = some (record w { head = some a; tail = some a })
append_global (some t) a w = link_last w t a >>= λ w'. some (record w' { tail = some a })

-- `skynet_globalmq_push`
unfoldable pub globalmq_push : World → ℕ → Option World
globalmq_push w a = w.heap a >>= λ q. require_null q.next w >>= append_global w.tail a

-- The tail after the head `a` is gone; the assert is that it was the tail too.
unfoldable pub tail_after : Option ℕ → Option ℕ → ℕ → Option (Option ℕ)
tail_after (some n) tail a = some tail
tail_after none none a = none
tail_after none (some t) a = if t == a then some none else none

unfoldable pub pop_head : World → ℕ → Option (World × Option ℕ)
pop_head w a = w.heap a >>= λ q. tail_after q.next w.tail a >>= λ tail.
    some (record (put w a (record q { next = none })) { head = q.next; tail = tail }, some a)

unfoldable pub pop_from : World → Option ℕ → Option (World × Option ℕ)
pop_from w none = some (w, none)
pop_from w (some a) = pop_head w a

-- `skynet_globalmq_pop`
unfoldable pub globalmq_pop : World → Option (World × Option ℕ)
globalmq_pop w = pop_from w w.head

-- `skynet_mq_push`
unfoldable pub mq_push : World → ℕ → Message → Option World
mq_push w a m = w.heap a >>= λ q. store_message q m >>= λ q'.
    if q'.in_global
    then some (put w a q')
    else globalmq_push (put w a (record q' { in_global = true })) a

-- `skynet_mq_mark_release`
unfoldable pub mark_release : World → ℕ → Option World
mark_release w a = w.heap a >>= λ q.
    if q.release
    then none
    else if q.in_global
    then some (put w a (record q { release = true }))
    else globalmq_push (put w a (record q { release = true })) a

-- The loop of `_drop_queue`, with the messages handed to `drop_func`, in order.
unfoldable pub drain : ℕ → MessageQueue → Option (MessageQueue × List Message)
drain zero q = none
drain (suc fuel) q = mq_pop q >>= λ r. elim (r.1) [
  | none ↦ some (r.0, [])
  | some m ↦ drain fuel r.0 >>= λ s. some (s.0, m ∷ s.1)
]

-- `_drop_queue` and `_release`
unfoldable pub drop_queue : World → ℕ → MessageQueue → Option (World × List Message)
drop_queue w a q = drain (suc (mq_length q)) q >>= λ r.
    require_null r.0.next w >>= λ w'. some (record w' { heap = update w'.heap a none }, r.1)

-- `skynet_mq_release`
unfoldable pub mq_release : World → ℕ → Option (World × List Message)
mq_release w a = w.heap a >>= λ q.
    if q.release then drop_queue w a q else globalmq_push w a >>= λ w'. some (w', [])
