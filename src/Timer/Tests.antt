-- ===== src/Timer/Tests.antt =====
-- skynet-src/skynet_timer.c: runs on concrete wheels.
use paohuzi_server.Shared.{
  ℕ, ◌+◌, ◌%◌, ◌^◌, ◌≡◌, refl, some, ◌&&◌, List, [], ◌∷◌, ltb, leb, ◌==◌, if◌then◌else◌, arith,
}
use paohuzi_server.Shared.Int.{negsuc}
use paohuzi_server.Timer.{
  Timer, TimerNode, u32, find_level, add_node, add_nodes, move_list, shift_loop, timer_shift,
  timer_add, timer_create, timer_update, timer_execute, execute_loop, updates, updatetime, timeout,
  timeout_now, event_message,
}
use paohuzi_server.Timer.Slot.{remaining}
use paohuzi_server.Timer.Bags.{node_eq, one_if, copies}
use paohuzi_server.Timer.Shift.{IsWheel}
use paohuzi_server.Timer.Wheel.{timer_create-IsWheel, new_node, timer_add-IsWheel, timer_update_lem}
use paohuzi_server.Timer.Clock.{Request, fired_at, fired_at_lem, updatetime_lem}

-- An event in 300 ticks passes through a level; it fires in the 300th update.
abbrev waiting : Timer
waiting = timer_add timer_create 7 1 300

early_then_due :
    ((updates 299 waiting).1 ≡ [])
    × ((updates 300 waiting).1 ≡ record { expire = 300; handle = 7; session = 1 } ∷ [])
unfolding updates timer_update timer_execute execute_loop timer_shift shift_loop move_list add_nodes
    add_node find_level timer_add timer_create
early_then_due = (refl, refl)

now_message :
    (timeout (λ h. h == 7) timer_create 7 (negsuc 4) 3).1
    ≡ some (7, record { source = 0; session = 3; addr = 0; size = 2 ^ 56 })
unfolding timeout timeout_now event_message
now_message = refl

timer_add-IsWheel_example :
    IsWheel
      (timer_add timer_create 7 1 300)
      (λ x. 0 + one_if (node_eq x (new_node timer_create 7 1 300)))
timer_add-IsWheel_example = timer_add-IsWheel timer_create-IsWheel 7 1 300 (omega arith)

abbrev held_by : TimerNode → ℕ
held_by x = 0 + one_if (node_eq x (new_node timer_create 7 1 300))

timer_update_example :
    let (T', fired) = timer_update waiting in
    IsWheel T' (λ x. if leb (remaining waiting.time x.expire) 1 then 0 else held_by x)
    × ((x : TimerNode)
        → copies x fired ≡ (if leb (remaining waiting.time x.expire) 1 then held_by x else 0))
    × (T'.time ≡ (waiting.time + 1) % u32)
timer_update_example = timer_update_lem timer_add-IsWheel_example

updatetime_example :
    (T' : Timer) × (fired : List TimerNode) × (updatetime waiting 500 ≡ some (T', fired))
    × ((x : TimerNode)
        → copies x fired
          ≡ (if ltb 0 500 && leb (remaining waiting.time x.expire) 500 then held_by x else 0))
    × (T'.time ≡ (waiting.time + 500) % u32)
unfolding timer_create timer_add add_node
updatetime_example = updatetime_lem 500 timer_add-IsWheel_example (omega arith) (omega arith)

abbrev requests : List (List Request)
requests =
    (record { handle = 7; session = 1; time = 2 } ∷ [])
    ∷ (record { handle = 7; session = 1; time = 1 }
        ∷ record { handle = 8; session = 2; time = 1 }
        ∷ [])
    ∷ []

-- Two requests of service 7 end at the second tick.
fired_at_example :
    copies (record { expire = 2; handle = 7; session = 1 }) (fired_at 1 timer_create requests)
    ≡ 0 + 2
unfolding timer_create
fired_at_example =
    fired_at_lem 1 requests (record { expire = 2; handle = 7; session = 1 }) timer_create-IsWheel
      (λ x ne. absurd (ne refl)) (omega arith) (omega arith) (omega arith)
