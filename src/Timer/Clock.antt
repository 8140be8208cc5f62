-- ===== src/Timer/Clock.antt =====
-- skynet-src/skynet_timer.c: many ticks: `skynet_updatetime`, and requests between the ticks.
use paohuzi_server.Shared.{
  ℕ, zero, suc, ◌+◌, ◌-◌, ◌%◌, ◌^◌, ◌≤◌, ◌<◌, ◌≡◌, refl, ◌≢◌, true, false, ◌&&◌, List, [], ◌∷◌, ltb,
  leb, ◌==◌, ==_ne, some, if◌then◌else◌, arith, ◌∙◌, sym, ap, ap₂, ℕ_discrete, length,
}
use paohuzi_server.Timer.{Timer, TimerNode, u32, timer_add, timer_update, updates, updatetime}
use paohuzi_server.Timer.Slot.{remaining}
use paohuzi_server.Timer.Bags.{one_if, node_eq, copies, copies-append}
use paohuzi_server.Timer.Shift.{IsWheel}
use paohuzi_server.Timer.Wheel.{new_node, time-timer_add, timer_add-IsWheel, timer_update_lem}

-- One more tick.
more_ticks :
    (n c e k : ℕ)
    → c < u32
    → (k ≢ 0 → e < u32)
    → let stays = if leb (remaining c e) 1 then 0 else k in
      let r' = remaining ((c + 1) % u32) e in
      (if leb (remaining c e) 1 then k else 0) + (if ltb 0 n && leb r' n then stays else 0)
      ≡ (if leb (remaining c e) (n + 1) then k else 0)
more_ticks n c e zero h f = ground arith
more_ticks n c e (suc k) h f = let g : e < u32 = f (λ z. cc) in ground arith

-- In `n` updates exactly those events are dispatched that have at most `n` ticks to go, each as
-- often as it was asked for; and the clock advances by `n`.
pub updates_lem :
    (n : ℕ) {T : Timer} {pending : TimerNode → ℕ}
    → IsWheel T pending
    → let (T', fired) = updates n T in
      ((x : TimerNode)
        → copies x fired ≡ (if ltb 0 n && leb (remaining T.time x.expire) n then pending x else 0))
      × (T'.time ≡ (T.time + n) % u32)
unfolding updates
updates_lem zero w = (λ x. refl, omega (arith, w.time_in))
updates_lem (suc n) {T} {pending} w =
    let s = timer_update_lem w in
    let r = updates_lem n s.0 in
    (
      λ x.
          copies-append x _ _
          ∙ ap₂ ◌+◌ (s.1 x) (r.0 x ∙ rw (s.2) refl)
          ∙ more_ticks n T.time x.expire (pending x) w.time_in (λ ne. (w.live x ne).0)
          ∙ ground arith,
      omega (arith, r.1, s.2),
    )

-- Time that does not go back and goes on by fewer than 2^31 ticks is caught up tick by tick: what was
-- due on the way is dispatched, and nothing else.
pub updatetime_lem :
    {T : Timer} {pending : TimerNode → ℕ} (cp : ℕ)
    → IsWheel T pending
    → T.current_point ≤ cp
    → cp - T.current_point < 2 ^ 31
    → let n = cp - T.current_point in
      (T' : Timer) × (fired : List TimerNode) × (updatetime T cp ≡ some (T', fired))
      × ((x : TimerNode)
          → copies x fired
            ≡ (if ltb 0 n && leb (remaining T.time x.expire) n then pending x else 0))
      × (T'.time ≡ (T.time + n) % u32)
unfolding updatetime
updatetime_lem {T} {pending} cp w h small = elim (ℕ_discrete cp T.current_point) [
  | yes same ↦
      let a : ltb cp T.current_point ≡ false = ground arith in
      let b : (cp == T.current_point) ≡ true = ground arith in
      let d : cp - T.current_point ≡ 0 = omega arith in
      (T, [], rw (a, b) refl, rw d (λ x. refl), rw d (omega (arith, w.time_in)))
  | no more ↦
      let a : ltb cp T.current_point ≡ false = ground arith in
      let b : (cp == T.current_point) ≡ false = ground arith in
      let d : (cp - T.current_point) % u32 ≡ cp - T.current_point = omega arith in
      let c : leb (2 ^ 31) (cp - T.current_point) ≡ false = ground arith in
      let n : ℕ = cp - T.current_point in
      let T1 : Timer = record T { current_point = cp; current = (T.current + n) % 2 ^ 64 } in
      let start : IsWheel T1 pending = record {
        time_in = w.time_in;
        live = w.live;
        bags = w.bags;
      } in
      let u = updates_lem n start in
      ((updates n T1).0, (updates n T1).1, rw (a, b, d, c) refl, u.0, u.1)
]

-- A call of `skynet_timeout` with a positive time.
pub record Request : Type 0 where
  pub handle : ℕ
  pub session : ℕ
  pub time : ℕ

unfoldable pub add_all : Timer → List Request → Timer
add_all T [] = T
add_all T (r ∷ l) = add_all (timer_add T r.handle r.session r.time) l

-- The events of tick `k`, counted from 0, where a list of requests comes before each tick.
unfoldable pub fired_at : ℕ → Timer → List (List Request) → List TimerNode
fired_at k T [] = []
fired_at zero T (b ∷ later) = (timer_update (add_all T b)).1
fired_at (suc k) T (b ∷ later) = fired_at k (timer_update (add_all T b)).0 later

-- How many requests of a list have this destination, session and time.
abbrev pub asked : ℕ → ℕ → ℕ → List Request → ℕ
asked time handle session [] = 0
asked time handle session (r ∷ l) =
    one_if ((time == r.time) && ((handle == r.handle) && (session == r.session)))
    + asked time handle session l

-- How many requests are due at tick `k`: those of `j` ticks before that ask for `j + 1` ticks.
abbrev pub expected : ℕ → ℕ → ℕ → List (List Request) → ℕ
expected k handle session [] = 0
expected zero handle session (b ∷ later) = asked 1 handle session b
expected (suc k) handle session (b ∷ later) =
    asked (suc (suc k)) handle session b + expected k handle session later

abbrev pub InRange : List Request → Type 0
InRange [] = Unit
InRange (r ∷ l) = (0 < r.time) × (r.time < 2 ^ 31) × InRange l

abbrev pub AllInRange : List (List Request) → Type 0
AllInRange [] = Unit
AllInRange (b ∷ later) = InRange b × AllInRange later

-- Nothing is overdue.
abbrev pub IsTimely : Timer → (TimerNode → ℕ) → Type 0
IsTimely T pending = (x : TimerNode) → pending x ≢ 0 → 0 < remaining T.time x.expire

same_tick :
    (c k : ℕ) (x : TimerNode) (T : Timer) (q : Request)
    → T.time ≡ c
    → c < u32
    → k < 2 ^ 31
    → q.time < 2 ^ 31
    → x.expire ≡ (c + k) % u32
    → node_eq x (new_node T q.handle q.session q.time)
      ≡ (k == q.time) && ((x.handle == q.handle) && (x.session == q.session))
same_tick c k x T q a b d f e =
    ap (λ t. t && ((x.handle == q.handle) && (x.session == q.session))) tick
  where
    tick : (x.expire == (q.time + T.time) % u32) ≡ (k == q.time)
    tick = ground arith

timer_add-IsTimely :
    (T : Timer) {pending : TimerNode → ℕ} (q : Request)
    → IsWheel T pending
    → IsTimely T pending
    → 0 < q.time
    → q.time < 2 ^ 31
    → IsTimely
        (timer_add T q.handle q.session q.time)
        (λ x. pending x + one_if (node_eq x (new_node T q.handle q.session q.time)))
timer_add-IsTimely T {pending} q w t a b x ne =
    rw (time-timer_add T q.handle q.session q.time) (elim (ℕ_discrete (pending x) 0) [
      | no old ↦ t x old
      | yes z ↦
          let e : x.expire ≡ (q.time + T.time) % u32 = ground arith in
          rw e (omega (arith, w.time_in))
    ])

add_all_lem :
    (l : List Request) {T : Timer} {pending : TimerNode → ℕ} (k : ℕ)
    → IsWheel T pending
    → IsTimely T pending
    → InRange l
    → k < 2 ^ 31
    → 0 < k
    → (p' : TimerNode → ℕ) × IsWheel (add_all T l) p'
      × IsTimely (add_all T l) p'
      × ((add_all T l).time ≡ T.time)
      × ((x : TimerNode)
          → x.expire ≡ (T.time + k) % u32
          → p' x ≡ pending x + asked k x.handle x.session l)
unfolding add_all
add_all_lem [] {T} {pending} k w t r small pos = (pending, w, t, refl, λ x e. omega arith)
add_all_lem (q ∷ l) {T} {pending} k w t r small pos =
    let n = time-timer_add T q.handle q.session q.time in
    let rec =
      add_all_lem l k (timer_add-IsWheel w q.handle q.session q.time r.1)
        (timer_add-IsTimely T q w t r.0 r.1) r.2 small pos in
    (
      rec.0,
      rec.1,
      rec.2,
      rec.3 ∙ n,
      λ x e.
          rec.4 x (e ∙ ap (λ c. (c + k) % u32) (sym n))
          ∙ ap (λ b. pending x + one_if b + asked k x.handle x.session l)
              (same_tick T.time k x T q refl w.time_in small r.1 e)
          ∙ omega arith,
    )

timer_update-IsTimely :
    {T : Timer} {pending : TimerNode → ℕ}
    → IsWheel T pending
    → IsTimely (timer_update T).0 (λ x. if leb (remaining T.time x.expire) 1 then 0 else pending x)
timer_update-IsTimely {T} {pending} w x ne =
    let k : pending x ≢ 0 = ground arith in
    let g : 1 < remaining T.time x.expire = ground arith in
    rw ((timer_update_lem w).2) (omega (arith, (w.live x k).0, w.time_in))

due_lem :
    (k : ℕ) (batches : List (List Request)) {T : Timer} {pending : TimerNode → ℕ} (x : TimerNode)
    → IsWheel T pending
    → IsTimely T pending
    → AllInRange batches
    → k + 1 < 2 ^ 31
    → k < length batches
    → x.expire ≡ (T.time + (k + 1)) % u32
    → copies x (fired_at k T batches) ≡ pending x + expected k x.handle x.session batches
unfolding fired_at
due_lem k [] x w t r small lt e = absurd (omega arith)
due_lem zero (b ∷ later) {T} {pending} x w t r small lt e =
    let a = add_all_lem b 1 w t r.0 (omega arith) (omega arith) in
    let u = timer_update_lem a.1 in
    let end : remaining (add_all T b).time x.expire ≡ 1 = rw (a.3, e) (omega (arith, w.time_in)) in
    u.1 x ∙ rw end (a.4 x e)
due_lem (suc k) (b ∷ later) {T} {pending} x w t r small lt e =
    let a = add_all_lem b (suc (suc k)) w t r.0 (omega arith) (omega arith) in
    let u = timer_update_lem a.1 in
    let c : (timer_update (add_all T b)).0.time ≡ (T.time + 1) % u32 = rw (u.2, a.3) refl in
    let far : remaining (add_all T b).time x.expire ≡ suc (suc k) =
      rw (a.3, e) (omega (arith, w.time_in)) in
    due_lem k later x u.0 (timer_update-IsTimely a.1) r.1 (omega arith) (omega arith)
      (rw (c, e) (omega arith))
    ∙ rw (far, not_now) (omega (arith, a.4 x (e ∙ omega arith)))
  where
    not_now : leb (suc (suc k)) 1 ≡ false
    not_now = ground arith

-- An event that does not end at tick `k` is not dispatched then.
undue_lem :
    (k : ℕ) (batches : List (List Request)) {T : Timer} {pending : TimerNode → ℕ} (x : TimerNode)
    → IsWheel T pending
    → IsTimely T pending
    → AllInRange batches
    → k + 1 < 2 ^ 31
    → k < length batches
    → x.expire ≢ (T.time + (k + 1)) % u32
    → copies x (fired_at k T batches) ≡ 0
unfolding fired_at
undue_lem k [] x w t r small lt ne = absurd (omega arith)
undue_lem zero (b ∷ later) {T} x w t r small lt ne =
    let (p', w', t', same, count) = add_all_lem b 1 w t r.0 (omega arith) (omega arith) in
    let u = timer_update_lem w' in
    elim (ℕ_discrete (p' x) 0) [
      | yes z ↦ u.1 x ∙ rw z (ground arith)
      | no live ↦
          let e_in = (w'.live x live).0 in
          let more : 0 < remaining (add_all T b).time x.expire = t' x live in
          let other : remaining (add_all T b).time x.expire ≢ 1 =
            λ one. ne (omega (arith, one, same, e_in, w'.time_in)) in
          let far : leb (remaining (add_all T b).time x.expire) 1 ≡ false =
            ground (arith, more, other) in
          u.1 x ∙ rw far refl
    ]
undue_lem (suc k) (b ∷ later) {T} x w t r small lt ne =
    let a = add_all_lem b (suc (suc k)) w t r.0 (omega arith) (omega arith) in
    let u = timer_update_lem a.1 in
    let c : (timer_update (add_all T b)).0.time ≡ (T.time + 1) % u32 = rw (u.2, a.3) refl in
    undue_lem k later x u.0 (timer_update-IsTimely a.1) r.1 (omega arith) (omega arith)
      (λ e. ne (e ∙ rw c (omega arith)))

-- Every request fires at its tick, once, and nothing fires at another tick: at tick `k` the events that
-- end then are dispatched as often as they were asked for, with those that the wheel held before, and
-- no other event. Requests ask for 1 to 2^31 - 1 ticks, and fewer than 2^31 ticks go by, from a wheel
-- where nothing is overdue.
pub fired_at_lem :
    (k : ℕ) (batches : List (List Request)) {T : Timer} {pending : TimerNode → ℕ} (x : TimerNode)
    → IsWheel T pending
    → IsTimely T pending
    → AllInRange batches
    → k + 1 < 2 ^ 31
    → k < length batches
    → copies x (fired_at k T batches) ≡ (
        if x.expire == (T.time + (k + 1)) % u32
        then pending x + expected k x.handle x.session batches
        else 0)
fired_at_lem k batches {T} x w t r small lt =
    elim (ℕ_discrete x.expire ((T.time + (k + 1)) % u32)) [
      | yes e ↦
          let b : (x.expire == (T.time + (k + 1)) % u32) ≡ true = ground arith in
          rw b (due_lem k batches x w t r small lt e)
      | no ne ↦
          rw (==_ne x.expire ((T.time + (k + 1)) % u32) ne)
            (undue_lem k batches x w t r small lt ne)
    ]
