-- ===== src/Mq/Run.antt =====
-- skynet-src/skynet_mq.c: any sequence of pushes and pops behaves as the list of messages.
use paohuzi_server.Shared.{
  ℕ, zero, suc, ◌+◌, ◌*◌, ◌<◌, ◌≡◌, refl, false, Option, none, some, List, [], ◌∷◌, ◌++◌, arith,
  ◌>>=◌, length, length-append,
}
use paohuzi_server.Mq.{Message, MessageQueue, int_limit, mq_pop, store_message, drain, mq_length}
use paohuzi_server.Mq.Ring.{IsValid, Holds, store_message_lem, mq_pop_lem, mq_pop_empty}

-- What a client does to one queue.
pub data Op : Type 0 where
  put : Message → Op
  get : Op

-- The answers of the pops, in order.
unfoldable pub run : MessageQueue → List Op → Option (List (Option Message))
run q [] = some []
run q (put m ∷ ops) = store_message q m >>= λ q'. run q' ops
run q (get ∷ ops) = mq_pop q >>= λ r. run r.0 ops >>= λ answers. some (r.1 ∷ answers)

-- The same for a list of messages.
unfoldable pub run_list : List Message → List Op → List (Option Message)
run_list ms [] = []
run_list ms (put m ∷ ops) = run_list (ms ++ m ∷ []) ops
run_list [] (get ∷ ops) = none ∷ run_list [] ops
run_list (m ∷ ms) (get ∷ ops) = some m ∷ run_list ms ops

emptied :
    {q : MessageQueue}
    → IsValid q
    → Holds q []
    → (q' : MessageQueue) × (mq_pop q ≡ some (q', none)) × IsValid q' × Holds q' []
unfolding mq_length
emptied {q} v h = (
  record q { overload_threshold = 1024; in_global = false },
  mq_pop_empty v h,
  ground arith,
  record { count = h.count; cells = λ i lt. absurd (omega arith) },
)

-- No sequence of pushes and pops tells the ring from a list of messages, and none faults, while
-- twice the number of messages and operations is an `int`.
pub run-eq-run_list :
    (ops : List Op) {q : MessageQueue} {ms : List Message}
    → IsValid q
    → Holds q ms
    → (length ms + length ops) * 2 < int_limit
    → run q ops ≡ some (run_list ms ops)
unfolding run run_list
run-eq-run_list [] v h small = refl
run-eq-run_list (put m ∷ ops) {q} {ms} v h small =
    let s = store_message_lem m v h (omega arith) in
    ground (arith, s.1, run-eq-run_list ops s.2 s.3 (omega (arith, length-append ms (m ∷ []))))
run-eq-run_list (get ∷ ops) {q} {ms = []} v h small =
    let s = emptied v h in ground (arith, s.1, run-eq-run_list ops s.2 s.3 (omega arith))
run-eq-run_list (get ∷ ops) {q} {ms = m ∷ ms} v h small =
    let s = mq_pop_lem v h in ground (arith, s.1, run-eq-run_list ops s.2 s.3 (omega arith))

-- The loop of `_drop_queue` ends, and hands over exactly the messages held, in order.
pub drain_lem :
    (ms : List Message) (fuel : ℕ) {q : MessageQueue}
    → IsValid q
    → Holds q ms
    → length ms < fuel
    → (q' : MessageQueue) × (drain fuel q ≡ some (q', ms)) × (q'.next ≡ q.next)
unfolding drain
drain_lem ms zero v h lt = absurd (omega arith)
drain_lem [] (suc fuel) {q} v h lt = (
  record q { overload_threshold = 1024; in_global = false },
  ground (arith, mq_pop_empty v h),
  refl,
)
drain_lem (m ∷ ms) (suc fuel) {q} v h lt =
    let s = mq_pop_lem v h in
    let r = drain_lem ms fuel s.2 s.3 (omega arith) in
    (r.0, ground (arith, s.1, r.1), ground (arith, r.2, s.7))
