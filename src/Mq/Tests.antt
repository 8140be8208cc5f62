-- ===== src/Mq/Tests.antt =====
-- skynet-src/skynet_mq.c: runs on concrete queues.
use paohuzi_server.Shared.{
  ℕ, ◌≤◌, ◌<◌, ◌≡◌, refl, true, false, Option, none, some, List, [], ◌∷◌, arith, inl, ◌⊎◌, update,
}
use mathlib.Core.Option
use paohuzi_server.Mq.{
  Message, MessageQueue, World, int_limit, create, put, mq_push, mq_pop, mq_length, store_message,
  expand_queue, advance, raise_threshold, copy_cells, globalmq_push, globalmq_pop,
}
use paohuzi_server.Mq.Ring.{IsValid, Holds, store_message_lem}
use paohuzi_server.Mq.Threshold.{mq_pop_report}
use paohuzi_server.Mq.Run.{Op, put as push_op, get, run, run_list, run-eq-run_list}
use paohuzi_server.Mq.Global.{In, IsGlobal}
use paohuzi_server.Mq.Queues.{System, make, send}
use paohuzi_server.Shared.Holders.{HeldBy}
use paohuzi_server.Mq.Queues.Safety.{
  start, Reach, here, next, one_worker, no_message_stranded, mq_push_total, globalmq_total,
}

abbrev hello : Message
hello = record { source = 3; session = 1; addr = 100; size = 5 }

abbrev world_msg : Message
world_msg = record { source = 4; session = 2; addr = 200; size = 6 }

-- A ring of two cells with one message, in the last cell.
abbrev small : MessageQueue
small = record {
  handle = 9;
  cap = 2;
  head = 1;
  tail = 0;
  release = false;
  in_global = true;
  overload = 0;
  overload_threshold = 1;
  queue = update (λ _. none) 1 (some hello);
  next = none;
}

small-IsValid : IsValid small
small-IsValid = omega arith

small-Holds : Holds small (hello ∷ [])
unfolding mq_length
small-Holds = record { count = refl; cells = λ i lt. let e : i ≡ 0 = omega arith in rw e refl }

-- The second message fills the ring, and it doubles.
abbrev doubled : MessageQueue → ℕ × ℕ × ℕ
doubled q = (q.cap, q.head, q.tail)

small_grows : Option.map doubled (store_message small world_msg) ≡ some (4, 0, 2)
unfolding store_message expand_queue
small_grows = refl

abbrev script : List Op
script = push_op world_msg ∷ get ∷ get ∷ get ∷ []

run-script : run small script ≡ some (some hello ∷ some world_msg ∷ none ∷ [])
unfolding run store_message expand_queue mq_pop advance raise_threshold copy_cells
run-script = refl

run-eq-run_list_example : run small script ≡ some (run_list (hello ∷ []) script)
run-eq-run_list_example = run-eq-run_list script small-IsValid small-Holds (omega arith)

store_message_example :
    (q' : MessageQueue) × (store_message small world_msg ≡ some q')
    × IsValid q'
    × Holds q' (hello ∷ world_msg ∷ [])
    × (q'.in_global ≡ true)
    × (q'.release ≡ false)
    × (q'.next ≡ none)
    × (q'.handle ≡ 9)
store_message_example = store_message_lem world_msg small-IsValid small-Holds (omega arith)

mq_pop_report_example :
    (q' : MessageQueue) × (mq_pop small ≡ some (q', some hello))
    × (0 ≤ q'.overload_threshold)
    × (q'.overload_threshold < int_limit)
    × (q'.overload ≡ 0)
mq_pop_report_example = mq_pop_report small-IsValid small-Holds (omega arith) (omega arith)

-- A service's queue is made by thread 1 at address 5, gets a message, and is put to work.
abbrev made : System
made = record { world = put start.world 5 (create 9); held = (1, 5) ∷ [] }

abbrev made_reach : Reach made
made_reach = next here (make 1 5 9 refl)

one_worker_example : (◌≡◌ {A = ℕ} 1 1) × ((l : List ℕ) × IsGlobal made.world l × (¬ In 5 l))
one_worker_example = one_worker 1 1 5 made_reach (inl (refl, refl)) (inl (refl, refl))

mq_push_total_example : (w : World) × (mq_push made.world 5 hello ≡ some w)
unfolding mq_length create
mq_push_total_example = mq_push_total 5 hello (create 9) made_reach refl refl (omega arith)

abbrev filled : MessageQueue
filled = record (create 9) { queue = update (λ _. none) 0 (some hello); tail = 1 }

abbrev sent : System
sent = record { world = put made.world 5 filled; held = (1, 5) ∷ [] }

sent_reach : Reach sent
unfolding create mq_push store_message
sent_reach = next made_reach (send 5 hello (create 9) refl refl refl)

no_message_stranded_example :
    (l : List ℕ) × IsGlobal sent.world l × (In 5 l ⊎ ((i : ℕ) × HeldBy i 5 sent.held))
unfolding mq_length create
no_message_stranded_example = no_message_stranded 5 filled sent_reach refl (omega arith)

globalmq_total_example :
    ((r : World × Option ℕ) × (globalmq_pop sent.world ≡ some r))
    × (HeldBy 1 5 sent.held → (w : World) × (globalmq_push sent.world 5 ≡ some w))
globalmq_total_example = globalmq_total 1 5 sent_reach
