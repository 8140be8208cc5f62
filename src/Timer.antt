-- ===== src/Timer.antt =====
-- skynet-src/skynet_timer.c: the timing wheel. Near buckets hold the events of the current 256
-- ticks, and four levels of 64 buckets the later ones, by coarser digits of the tick. A linked list
-- with its tail pointer is the list of its nodes. What the code runs under its lock is one step.
pub mod Slot
pub mod Bags
pub mod Shift
pub mod Wheel
pub mod Clock
mod Tests
use Prim.Native.Nat.{bit_and, bit_or}
use paohuzi_server.Shared.{
  ℕ, zero, suc, ◌+◌, ◌-◌, ◌*◌, ◌/◌, ◌%◌, ◌^◌, List, [], ◌∷◌, ◌++◌, map, ltb, ◌==◌, if◌then◌else◌,
  update, Bool, Option, none, some, leb,
}
use paohuzi_server.Shared.Int.{ℤ, pos, negsuc}
use paohuzi_server.Mq.{Message}

abbrev pub u32 : ℕ
u32 = 2 ^ 32

abbrev pub time_near : ℕ
time_near = 2 ^ 8

abbrev pub time_near_mask : ℕ
time_near_mask = 2 ^ 8 - 1

abbrev pub time_level_mask : ℕ
time_level_mask = 2 ^ 6 - 1

-- `struct timer_node` with the `struct timer_event` behind it
pub record TimerNode : Type 0 where
  pub expire : ℕ
  pub handle : ℕ
  pub session : ℕ

-- `struct timer`
pub record Timer : Type 0 where
  pub near : ℕ → List TimerNode
  pub t : ℕ → ℕ → List TimerNode
  pub time : ℕ
  pub starttime : ℕ
  pub current : ℕ
  pub current_point : ℕ

-- `link`, at the end of a list
abbrev pub link : List TimerNode → TimerNode → List TimerNode
link l node = l ++ node ∷ []

-- `t[level][idx] = l`
abbrev pub update_level : (ℕ → ℕ → List TimerNode) → ℕ → ℕ → List TimerNode → ℕ → ℕ → List TimerNode
update_level t level idx l = update t level (update (t level) idx l)

-- The loop of `add_node` with `rounds` rounds to go.
unfoldable pub find_level : ℕ → ℕ → ℕ → ℕ → ℕ → ℕ
find_level zero i mask time current_time = i
find_level (suc rounds) i mask time current_time =
    let deeper = find_level rounds (i + 1) (mask * 2 ^ 6 % u32) time current_time in
    if bit_or time (mask - 1) == bit_or current_time (mask - 1) then i else deeper

-- `add_node`
unfoldable pub add_node : Timer → TimerNode → Timer
add_node T node =
    if bit_or node.expire time_near_mask == bit_or T.time time_near_mask
    then record T {
      near =
          let idx = bit_and node.expire time_near_mask in
          update T.near idx (link (T.near idx) node);
    }
    else record T {
      t =
          let i = find_level 3 0 (time_near * 2 ^ 6) node.expire T.time in
          let idx = bit_and (node.expire / 2 ^ (8 + i * 6)) time_level_mask in
          update_level T.t i idx (link (T.t i idx) node);
    }

-- `timer_add`; `time` is a positive `int`.
unfoldable pub timer_add : Timer → ℕ → ℕ → ℕ → Timer
timer_add T handle session time =
    add_node T (record { expire = (time + T.time) % u32; handle = handle; session = session })

-- The loop of `move_list`.
unfoldable pub add_nodes : Timer → List TimerNode → Timer
add_nodes T [] = T
add_nodes T (node ∷ l) = add_nodes (add_node T node) l

-- `move_list`
unfoldable pub move_list : Timer → ℕ → ℕ → Timer
move_list T level idx = add_nodes (record T { t = update_level T.t level idx [] }) (T.t level idx)

-- The loop of `timer_shift`, with fuel.
unfoldable pub shift_loop : ℕ → ℕ → ℕ → ℕ → ℕ → Timer → Timer
shift_loop zero ct mask time i T = T
shift_loop (suc fuel) ct mask time i T =
    let idx = bit_and time time_level_mask in
    let further = shift_loop fuel ct (mask * 2 ^ 6) (time / 2 ^ 6) (i + 1) T in
    if bit_and ct (mask - 1) == 0 then if idx == 0 then further else move_list T i idx else T

-- `timer_shift`
unfoldable pub timer_shift : Timer → Timer
timer_shift T =
    let ct = (T.time + 1) % u32 in
    let ticked = record T { time = ct } in
    if ct == 0 then move_list ticked 3 0 else shift_loop 4 ct time_near (ct / 2 ^ 8) 0 ticked

-- The loop of `timer_execute`, with fuel: the nodes that are dispatched, in order.
unfoldable pub execute_loop : ℕ → ℕ → Timer → Timer × List TimerNode
execute_loop zero idx T = (T, [])
execute_loop (suc fuel) idx T = elim (T.near idx) [
  | [] ↦ (T, [])
  | node ∷ l ↦
      let (T', later) = execute_loop fuel idx (record T { near = update T.near idx [] }) in
      (T', (node ∷ l) ++ later)
]

-- `timer_execute`
unfoldable pub timer_execute : Timer → Timer × List TimerNode
timer_execute T = execute_loop 2 (bit_and T.time time_near_mask) T

-- `timer_update`: the timer after a tick, and the events in the order of their dispatch.
unfoldable pub timer_update : Timer → Timer × List TimerNode
timer_update T =
    let (before, overdue) = timer_execute T in
    let (after, fired) = timer_execute (timer_shift before) in (after, overdue ++ fired)

-- The message that `dispatch_list` sends for a node: `PTYPE_RESPONSE` in the high byte of `sz`.
unfoldable pub event_message : TimerNode → Message
event_message node = record { source = 0; session = node.session; addr = 0; size = 1 * 2 ^ 56 }

-- `dispatch_list`: the destinations and messages, in order.
unfoldable pub dispatch_list : List TimerNode → List (ℕ × Message)
dispatch_list l = map (λ node. (node.handle, event_message node)) l

-- `timer_create_timer`
unfoldable pub timer_create : Timer
timer_create = record {
  near = λ _. [];
  t = λ _ _. [];
  time = 0;
  starttime = 0;
  current = 0;
  current_point = 0;
}

-- The first branch of `skynet_timeout`: the message is pushed at once.
unfoldable pub timeout_now : (ℕ → Bool) → Timer → ℕ → ℕ → Timer × Option (ℕ × Message) × Option ℕ
timeout_now exists T handle session =
    let message = event_message (record { expire = 0; handle = handle; session = session }) in
    if exists handle then (T, some (handle, message), some session) else (T, none, none)

-- `skynet_timeout`, with `exists` for the test of `skynet_context_push` that the destination is a
-- service: the timer, the message pushed at once if any, and the result, `none` for -1.
unfoldable pub timeout : (ℕ → Bool) → Timer → ℕ → ℤ → ℕ → Timer × Option (ℕ × Message) × Option ℕ
timeout exists T handle (pos zero) session = timeout_now exists T handle session
timeout exists T handle (negsuc time) session = timeout_now exists T handle session
timeout exists T handle (pos (suc time)) session =
    (timer_add T handle session (suc time), none, some session)

-- The loop of `skynet_updatetime`: `n` updates, fewer than its `int` counter overflows at.
unfoldable pub updates : ℕ → Timer → Timer × List TimerNode
updates zero T = (T, [])
updates (suc n) T =
    let (T', fired) = timer_update T in let (T'', later) = updates n T' in (T'', fired ++ later)

-- `skynet_updatetime` at the time `cp` that `gettime` returns; `none` where `i` overflows.
unfoldable pub updatetime : Timer → ℕ → Option (Timer × List TimerNode)
updatetime T cp =
    let diff = (cp - T.current_point) % u32 in
    let caught_up =
      some
        (updates diff (record T { current_point = cp; current = (T.current + diff) % 2 ^ 64 })) in
    if ltb cp T.current_point
    then some (record T { current_point = cp }, [])
    else if cp == T.current_point
    then some (T, [])
    else if leb (2 ^ 31) diff
    then none
    else caught_up

-- `skynet_timer_init` at the wall clock `sec` and `cs` and the time `point`.
unfoldable pub timer_init : ℕ → ℕ → ℕ → Timer
timer_init sec cs point = record timer_create {
  starttime = sec;
  current = cs;
  current_point = point;
}
