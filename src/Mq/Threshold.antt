-- ===== src/Mq/Threshold.antt =====
-- skynet-src/skynet_mq.c: the overload report of `skynet_mq_pop`.
use paohuzi_server.Shared.{
  ℕ, zero, suc, ◌+◌, ◌-◌, ◌*◌, ◌≤◌, ◌<◌, ◌≡◌, ◌≢◌, some, List, ◌∷◌, arith, ltb, leb, if◌then◌else◌,
  length,
}
use paohuzi_server.Mq.{
  Message, MessageQueue, int_limit, mq_length, raise_threshold, advance, mq_pop,
}
use paohuzi_server.Mq.Ring.{IsValid, Holds}

-- Enough fuel: the loop ends by its test, and reports the length exactly if it went round.
raise_threshold_lem :
    (fuel n : ℕ) (q : MessageQueue)
    → 0 < q.overload_threshold
    → n ≤ fuel + q.overload_threshold
    → let q' = raise_threshold fuel n q in
      (n ≤ q'.overload_threshold)
      × (q.overload_threshold ≤ q'.overload_threshold)
      × (q'.overload ≡ (if ltb q.overload_threshold n then n else q.overload))
unfolding raise_threshold
raise_threshold_lem zero n q pos h = ground arith
raise_threshold_lem (suc fuel) n q pos h = ground (
  arith,
  raise_threshold_lem fuel n
      (record q { overload = n; overload_threshold = q.overload_threshold * 2 }),
)

raise_threshold_lt :
    (fuel n bound : ℕ) (q : MessageQueue)
    → q.overload_threshold < bound
    → n * 2 ≤ bound
    → (raise_threshold fuel n q).overload_threshold < bound
unfolding raise_threshold
raise_threshold_lt zero n bound q h k = h
raise_threshold_lt (suc fuel) n bound q h k = ground (
  arith,
  raise_threshold_lt fuel n bound
      (record q { overload = n; overload_threshold = q.overload_threshold * 2 }),
)

advance_report :
    (q : MessageQueue)
    → IsValid q
    → q.head ≢ q.tail
    → let n = mq_length q - 1 in
      (n ≤ (advance q).overload_threshold)
      × ((advance q).overload ≡ (if ltb q.overload_threshold n then n else q.overload))
unfolding advance mq_length
advance_report q v ne = ground (arith, raise_threshold_lem count count (record q { head = head }))
  where
    head : ℕ
    head = if leb q.cap (q.head + 1) then 0 else q.head + 1

    count : ℕ
    count = if ltb q.tail head then q.tail + q.cap - head else q.tail - head

advance_bound :
    (q : MessageQueue)
    → IsValid q
    → q.cap * 2 ≤ int_limit
    → q.overload_threshold < int_limit
    → (advance q).overload_threshold < int_limit
unfolding advance
advance_bound q v small h = raise_threshold_lt _ _ _ _ h (ground arith)

-- A pop of a queue that holds messages leaves the threshold at no less than the number of messages
-- that stay; it reports that number exactly if it exceeded the threshold before; and the doubled
-- threshold stays an `int`, where twice the capacity is one.
pub mq_pop_report :
    {q : MessageQueue} {m : Message} {ms : List Message}
    → IsValid q
    → Holds q (m ∷ ms)
    → q.cap * 2 ≤ int_limit
    → q.overload_threshold < int_limit
    → (q' : MessageQueue) × (mq_pop q ≡ some (q', some m))
      × (length ms ≤ q'.overload_threshold)
      × (q'.overload_threshold < int_limit)
      × (q'.overload ≡ (if ltb q.overload_threshold (length ms) then length ms else q.overload))
unfolding mq_pop mq_length
mq_pop_report {q} {m} {ms} v h small low = (
  advance q,
  ground (arith, h.count, h.cells 0),
  ground (arith, h.count, advance_report q v),
  advance_bound q v small low,
  ground (arith, h.count, advance_report q v),
)
