-- ===== src/Mq/Ring.antt =====
-- skynet-src/skynet_mq.c: the ring of one message queue is a FIFO, and no access leaves it.
use paohuzi_server.Shared.{
  ℕ, zero, suc, ◌+◌, ◌-◌, ◌*◌, ◌%◌, ◌<◌, ◌≡◌, refl, ◌≢◌, false, none, some, List, [], ◌∷◌, ◌++◌,
  arith, ltb, leb, if◌then◌else◌, update, length, get_elem?, length-append, get_elem?-append_left,
  get_elem?-append_last, dec_lt, ap, ℕ_discrete,
}
use native.Mathlib.Nat.{mod-eq_of_lt, mod-eq-sub-mod}
use paohuzi_server.Mq.{
  Message, MessageQueue, mq_overload, int_limit, create, mq_length, raise_threshold, advance,
  mq_pop, copy_cells, expand_queue, store_message,
}

pub record IsValid (q : MessageQueue) : Type 0 where
  pub head_in : q.head < q.cap
  pub tail_in : q.tail < q.cap
  pub threshold_pos : 0 < q.overload_threshold

-- The cell of the message that `i` others stand before.
abbrev pub slot : MessageQueue → ℕ → ℕ
slot q i = if ltb (q.head + i) q.cap then q.head + i else q.head + i - q.cap

-- The ring holds the messages `ms`, oldest first.
pub record Holds (q : MessageQueue) (ms : List Message) : Type 0 where
  pub count : mq_length q ≡ length ms
  pub cells : (i : ℕ) → i < length ms → q.queue (slot q i) ≡ get_elem? ms i

-- The messages depend on the ring alone.
pub Holds-same_ring :
    (q q' : MessageQueue) {ms : List Message}
    → q'.head ≡ q.head
    → q'.tail ≡ q.tail
    → q'.cap ≡ q.cap
    → q'.queue ≡ q.queue
    → Holds q ms
    → Holds q' ms
unfolding mq_length
Holds-same_ring q q' a b c d h = record {
  count = ground (arith, h.count);
  cells = λ i lt. ground (arith, h.cells i lt);
}

slot-mod : (q : MessageQueue) (i : ℕ) → q.head < q.cap → i < q.cap → (q.head + i) % q.cap ≡ slot q i
slot-mod q i h k = elim (dec_lt (q.head + i) q.cap) [
  | yes below ↦ ground (arith, mod-eq_of_lt {n = q.head + i} {m = q.cap} below)
  | no past ↦ ground (
    arith,
    mod-eq-sub-mod {n = q.head + i} {m = q.cap} (omega arith),
    mod-eq_of_lt {n = q.head + i - q.cap} {m = q.cap} (omega arith),
  )
]

copy_cells_lem :
    (q : MessageQueue) (n i : ℕ) → i < n → copy_cells q n i ≡ q.queue ((q.head + i) % q.cap)
unfolding copy_cells
copy_cells_lem q zero i h = elim h [ ]
copy_cells_lem q (suc n) i h = elim (ℕ_discrete n i) [
  | yes e ↦ ground (arith, ap (λ k. q.queue ((q.head + k) % q.cap)) e)
  | no ne ↦ ground (arith, copy_cells_lem q n i (omega arith))
]

module _ {q : MessageQueue} {ms : List Message} (m : Message) (v : IsValid q) (h : Holds q ms) where
  -- the queue after the cell at `tail` is written, before it may grow
  abbrev written : MessageQueue
  written = record q {
    queue = update q.queue q.tail (some m);
    tail = if leb q.cap (q.tail + 1) then 0 else q.tail + 1;
  }

  length_bound : length ms < q.cap
  unfolding mq_length
  length_bound = ground (arith, h.count)

  written_cell :
      (i : ℕ)
      → i < length (ms ++ m ∷ [])
      → written.queue (slot written i) ≡ get_elem? (ms ++ m ∷ []) i
  unfolding mq_length
  written_cell i lt = elim (dec_lt i (length ms)) [
    | yes old ↦
        ground
          (arith, h.count, length_bound, h.cells i old, get_elem?-append_left ms (m ∷ []) i old)
    | no last ↦
        let e : i ≡ length ms = omega (arith, length-append ms (m ∷ [])) in
        ground (arith, h.count, length_bound, get_elem?-append_last ms m i e)
  ]

  written_count : q.head ≢ written.tail → mq_length written ≡ length (ms ++ m ∷ [])
  unfolding mq_length
  written_count ne = ground (arith, h.count, length-append ms (m ∷ []))

  full_count : q.head ≡ written.tail → q.cap ≡ length (ms ++ m ∷ [])
  unfolding mq_length
  full_count e = ground (arith, h.count, length-append ms (m ∷ []))

  -- the queue after `expand_queue`
  abbrev grown : MessageQueue
  grown = record written {
    queue = copy_cells written q.cap;
    head = 0;
    tail = q.cap;
    cap = q.cap * 2;
  }

  grown_cell :
      (i : ℕ)
      → q.head ≡ written.tail
      → i < length (ms ++ m ∷ [])
      → grown.queue (slot grown i) ≡ get_elem? (ms ++ m ∷ []) i
  grown_cell i e lt =
      ground
        (arith, copy_cells_lem written q.cap i, slot-mod written i, full_count e, written_cell i lt)

  grown_count : q.head ≡ written.tail → mq_length grown ≡ length (ms ++ m ∷ [])
  unfolding mq_length
  grown_count full = ground (arith, full_count full)

  -- Whatever the size: a push that succeeds stored the message behind the others.
  pub store_message_ok :
      {q' : MessageQueue}
      → store_message q m ≡ some q'
      → IsValid q'
        × Holds q' (ms ++ m ∷ [])
        × (q'.in_global ≡ q.in_global)
        × (q'.release ≡ q.release)
        × (q'.next ≡ q.next)
  unfolding store_message expand_queue
  store_message_ok {q'} e = elim (ℕ_discrete q.head written.tail) [
    | yes full ↦
        let s : q' ≡ grown = ground arith in
        rw s (
          ground (arith, full_count full, length-append ms (m ∷ [])),
          record { count = grown_count full; cells = λ i lt. grown_cell i full lt },
          refl,
          refl,
          refl,
        )
    | no room ↦
        let s : q' ≡ written = ground arith in
        rw s (
          ground arith,
          record { count = written_count room; cells = written_cell },
          refl,
          refl,
          refl,
        )
  ]

  -- A push stores the message behind the others, also where the ring is full and doubles: no access
  -- is out of range, and the other fields of the queue stay.
  pub store_message_lem :
      (length ms + 1) * 2 < int_limit
      → (q' : MessageQueue) × (store_message q m ≡ some q')
        × IsValid q'
        × Holds q' (ms ++ m ∷ [])
        × (q'.in_global ≡ q.in_global)
        × (q'.release ≡ q.release)
        × (q'.next ≡ q.next)
        × (q'.handle ≡ q.handle)
  unfolding store_message expand_queue mq_length
  store_message_lem small = elim (ℕ_discrete q.head written.tail) [
    | yes full ↦ (
      grown,
      ground (arith, full_count full, length-append ms (m ∷ [])),
      ground arith,
      record { count = grown_count full; cells = λ i lt. grown_cell i full lt },
      refl,
      refl,
      refl,
      refl,
    )
    | no room ↦ (
      written,
      ground arith,
      ground arith,
      record { count = written_count room; cells = written_cell },
      refl,
      refl,
      refl,
      refl,
    )
  ]

-- The fields that the threshold loop leaves alone.
pub record SameRing (q q' : MessageQueue) : Type 0 where
  pub same_head : q'.head ≡ q.head
  pub same_tail : q'.tail ≡ q.tail
  pub same_cap : q'.cap ≡ q.cap
  pub same_queue : q'.queue ≡ q.queue
  pub same_global : q'.in_global ≡ q.in_global
  pub same_release : q'.release ≡ q.release
  pub same_next : q'.next ≡ q.next
  pub same_handle : q'.handle ≡ q.handle

raise_threshold-SameRing : (fuel n : ℕ) (q : MessageQueue) → SameRing q (raise_threshold fuel n q)
unfolding raise_threshold
raise_threshold-SameRing zero n q = ground arith
raise_threshold-SameRing (suc fuel) n q = ground (
  arith,
  raise_threshold-SameRing fuel n
      (record q { overload = n; overload_threshold = q.overload_threshold * 2 }),
)

raise_threshold_pos :
    (fuel n : ℕ) (q : MessageQueue)
    → 0 < q.overload_threshold
    → 0 < (raise_threshold fuel n q).overload_threshold
unfolding raise_threshold
raise_threshold_pos zero n q h = h
raise_threshold_pos (suc fuel) n q h = ground (
  arith,
  raise_threshold_pos fuel n
      (record q { overload = n; overload_threshold = q.overload_threshold * 2 }),
)

pub advance-SameRing :
    (q : MessageQueue)
    → ((advance q).head ≡ (if leb q.cap (q.head + 1) then 0 else q.head + 1))
      × ((advance q).tail ≡ q.tail)
      × ((advance q).cap ≡ q.cap)
      × ((advance q).queue ≡ q.queue)
      × ((advance q).in_global ≡ q.in_global)
      × ((advance q).release ≡ q.release)
      × ((advance q).next ≡ q.next)
      × ((advance q).handle ≡ q.handle)
unfolding advance
advance-SameRing q = (
  s.same_head, s.same_tail, s.same_cap, s.same_queue, s.same_global, s.same_release, s.same_next,
  s.same_handle,
)
  where
    head : ℕ
    head = if leb q.cap (q.head + 1) then 0 else q.head + 1

    count : ℕ
    count = if ltb q.tail head then q.tail + q.cap - head else q.tail - head

    s : SameRing (record q { head = head }) (raise_threshold count count (record q { head = head }))
    s = raise_threshold-SameRing count count (record q { head = head })

advance-threshold_pos :
    (q : MessageQueue) → 0 < q.overload_threshold → 0 < (advance q).overload_threshold
unfolding advance
advance-threshold_pos q h = raise_threshold_pos _ _ _ h

module _ {q : MessageQueue} {m : Message} {ms : List Message} (v : IsValid q)
    (h : Holds q (m ∷ ms)) where
  advance-IsValid : IsValid (advance q)
  advance-IsValid = ground (arith, advance-SameRing q, advance-threshold_pos q v.threshold_pos)

  advance-count : mq_length (advance q) ≡ length ms
  unfolding mq_length
  advance-count = ground (arith, advance-SameRing q, h.count)

  advance-cell : (i : ℕ) → i < length ms → (advance q).queue (slot (advance q) i) ≡ get_elem? ms i
  unfolding mq_length
  advance-cell i lt = ground (arith, advance-SameRing q, h.count, h.cells (suc i))

  -- A pop of a queue that holds messages returns the oldest, which was written, and leaves the rest;
  -- the mark `in_global` and the other fields stay.
  pub mq_pop_lem :
      (q' : MessageQueue) × (mq_pop q ≡ some (q', some m))
      × IsValid q'
      × Holds q' ms
      × (q'.cap ≡ q.cap)
      × (q'.in_global ≡ q.in_global)
      × (q'.release ≡ q.release)
      × (q'.next ≡ q.next)
      × (q'.handle ≡ q.handle)
  unfolding mq_pop mq_length
  mq_pop_lem = (
    advance q,
    ground (arith, h.count, h.cells 0),
    advance-IsValid,
    record { count = advance-count; cells = advance-cell },
    (advance-SameRing q).2,
    (advance-SameRing q).4,
    (advance-SameRing q).5,
    (advance-SameRing q).6,
    (advance-SameRing q).7,
  )

-- A pop of an empty queue reports that, clears `in_global` and resets the threshold.
pub mq_pop_empty :
    {q : MessageQueue}
    → IsValid q
    → Holds q []
    → mq_pop q ≡ some (record q { overload_threshold = mq_overload; in_global = false }, none)
unfolding mq_pop mq_length
mq_pop_empty v h = ground (arith, h.count)

pub create-IsValid : (handle : ℕ) → IsValid (create handle)
unfolding create
create-IsValid handle = omega arith

pub create-Holds : (handle : ℕ) → Holds (create handle) []
unfolding create mq_length
create-Holds handle = record { count = refl; cells = λ i lt. absurd (omega arith) }

-- Whatever a pop that returns a message finds, the rest stays.
pub mq_pop-some :
    {q q' : MessageQueue} {m : Message} (ms : List Message)
    → IsValid q
    → Holds q ms
    → mq_pop q ≡ some (q', some m)
    → (rest : List Message) × (ms ≡ m ∷ rest)
      × IsValid q'
      × Holds q' rest
      × (q'.in_global ≡ q.in_global)
      × (q'.release ≡ q.release)
      × (q'.next ≡ q.next)
mq_pop-some [] v h e = cc (mq_pop_empty v h)
mq_pop-some {q} {q'} {m} (x ∷ rest) v h e =
    let s = mq_pop_lem v h in
    let same : q' ≡ s.0 = ground (arith, s.1) in
    let first : m ≡ x = ground (arith, s.1) in
    (rest, ground arith, rw same s.2, rw same s.3, rw same s.5, rw same s.6, rw same s.7)

-- A pop that returns none found the queue empty.
pub mq_pop-none :
    {q q' : MessageQueue} (ms : List Message)
    → IsValid q
    → Holds q ms
    → mq_pop q ≡ some (q', none)
    → (ms ≡ []) × (q' ≡ record q { overload_threshold = mq_overload; in_global = false })
mq_pop-none [] v h e = (refl, ground (arith, mq_pop_empty v h))
mq_pop-none (x ∷ rest) v h e = absurd (ground (arith, (mq_pop_lem v h).1))
