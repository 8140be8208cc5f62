-- ===== src/Timer/Wheel.antt =====
-- skynet-src/skynet_timer.c: `timer_add`, `timer_execute` and `timer_update` on a wheel.
use paohuzi_server.Shared.{
  ℕ, zero, suc, ◌+◌, ◌/◌, ◌%◌, ◌^◌, ◌<◌, ◌≡◌, refl, ◌≢◌, ◌⊎◌, inl, inr, Bool, true, false, ◌&&◌,
  List, [], ◌∷◌, ltb, leb, ◌==◌, if◌then◌else◌, arith, ◌∙◌, sym, ap, ap₂, fun_ext, ℕ_discrete,
  ==_ne, ==_refl, subst, append-nil,
}
use paohuzi_server.Shared.Bits.{bit_and_ones}
use paohuzi_server.Timer.{
  Timer, TimerNode, u32, timer_add, timer_create, timer_shift, execute_loop, timer_execute,
  timer_update,
}
use paohuzi_server.Timer.Slot.{slot, remaining, fire_slot}
use paohuzi_server.Timer.Bags.{
  one_if, node_eq, copies, copies-append, if_zero, if_sum, own_slot, bucket, bucket-add_node,
  time-add_node,
}
use paohuzi_server.Timer.Shift.{IsWheel, shift-IsWheel, time-timer_shift}

-- The new timer holds nothing.
pub timer_create-IsWheel : IsWheel timer_create (λ _. 0)
unfolding timer_create
timer_create-IsWheel = record {
  time_in = omega arith;
  live = λ x ne. absurd (ne refl);
  bags = λ x s h. ground arith;
}

abbrev pub new_node : Timer → ℕ → ℕ → ℕ → TimerNode
new_node T handle session time = record {
  expire = (time + T.time) % u32;
  handle = handle;
  session = session;
}

pub time-timer_add :
    (T : Timer) (handle session time : ℕ) → (timer_add T handle session time).time ≡ T.time
unfolding timer_add
time-timer_add T handle session time = time-add_node T (new_node T handle session time)

module _ {T : Timer} {pending : TimerNode → ℕ} (w : IsWheel T pending) where
  new_live :
      (handle session time : ℕ)
      → time < 2 ^ 31
      → (x : TimerNode) → pending x + one_if (node_eq x (new_node T handle session time)) ≢ 0
      → (x.expire < u32) × (remaining T.time x.expire < 2 ^ 31)
  new_live handle session time h x ne = elim (ℕ_discrete (pending x) 0) [
    | no old ↦ w.live x old
    | yes z ↦
        let e : x.expire ≡ (time + T.time) % u32 = ground arith in
        rw e (omega arith, omega (arith, w.time_in))
  ]

  -- `timer_add` adds one event to those to come, for the tick that is asked for.
  pub timer_add-IsWheel :
      (handle session time : ℕ)
      → time < 2 ^ 31
      → IsWheel
          (timer_add T handle session time)
          (λ x. pending x + one_if (node_eq x (new_node T handle session time)))
  unfolding timer_add
  timer_add-IsWheel handle session time h = record {
    time_in = rw (time-add_node T (new_node T handle session time)) w.time_in;
    live = λ x ne.
        rw (time-add_node T (new_node T handle session time)) (new_live handle session time h x ne);
    bags = λ x s k. rw (time-add_node T (new_node T handle session time)) (
        bucket-add_node x T (new_node T handle session time) s (omega arith)
        ∙ ap
            (λ c.
              c
              + (if slot T.time (new_node T handle session time).expire == s
                  then one_if (node_eq x (new_node T handle session time))
                  else 0))
            (w.bags x s k)
        ∙ ap (λ c. (if slot T.time x.expire == s then pending x else 0) + c)
            (own_slot T.time s x (new_node T handle session time))
        ∙ sym (
            if_sum (slot T.time x.expire == s) (pending x)
              (one_if (node_eq x (new_node T handle session time)))));
  }

list-cases :
    (l : List TimerNode) → (l ≡ []) ⊎ ((n : TimerNode) × (m : List TimerNode) × (l ≡ n ∷ m))
list-cases [] = inl refl
list-cases (n ∷ m) = inr (n, m, refl)

-- The bucket `idx` is taken whole and in order, and the second round finds it empty.
execute_loop_lem :
    (T : Timer) (idx : ℕ)
    → let r = execute_loop 2 idx T in
      (r.0.time ≡ T.time)
      × (r.1 ≡ T.near idx)
      × ((s : ℕ) → bucket r.0 s ≡ (if ltb s 256 && (idx == s) then [] else bucket T s))
unfolding execute_loop
execute_loop_lem T idx = elim (list-cases (T.near idx)) [
  | inl e ↦
      rw (e, execute_loop)
        (
          refl,
          refl,
          λ s. elim (ℕ_discrete idx s) [
            | yes u ↦ let f : T.near s ≡ [] = subst (λ k. T.near k ≡ []) u e in ground (arith, f)
            | no u ↦ ground arith
          ],
        )
  | inr (n, l, e) ↦ rw (e, execute_loop, ==_refl idx) (refl, append-nil (n ∷ l), λ s. ground arith)
]

timer_execute_lem :
    (T : Timer)
    → let r = timer_execute T in
      (r.0.time ≡ T.time)
      × (r.1 ≡ T.near (T.time % 256))
      × ((s : ℕ) → bucket r.0 s ≡ (if ltb s 256 && (T.time % 256 == s) then [] else bucket T s))
unfolding timer_execute
timer_execute_lem T = rw (bit_and_ones 8 T.time) (execute_loop_lem T (T.time % 256))

copies-if :
    (x : TimerNode) (b : Bool) (l : List TimerNode)
    → copies x (if b then [] else l) ≡ (if b then 0 else copies x l)
copies-if x true l = refl
copies-if x false l = refl

combine :
    (u j s k : ℕ) (b : Bool)
    → j < 256
    → (k ≡ 0) ⊎ ((u == j) ≡ b)
    → (if ltb s 256 && (j == s) then 0 else if u == s then k else 0)
      ≡ (if u == s then if b then 0 else k else 0)
combine u j s k true h e = ground arith
combine u j s k false h e = ground arith

own_fire : (c : ℕ) → slot c c ≡ c % 256
own_fire c = rw (==_refl (c / 2 ^ 8)) refl

module _ {T : Timer} {pending : TimerNode → ℕ} (w : IsWheel T pending) where
  -- what stays, and what is dispatched
  abbrev pub rest : TimerNode → ℕ
  rest x = if x.expire == T.time then 0 else pending x

  abbrev pub due : TimerNode → ℕ
  due x = if x.expire == T.time then pending x else 0

  fire_iff :
      (x : TimerNode)
      → pending x ≢ 0
      → (slot T.time x.expire == T.time % 256) ≡ (x.expire == T.time)
  fire_iff x ne = elim (ℕ_discrete x.expire T.time) [
    | yes e ↦ rw (e, own_fire T.time, ==_refl T.time, ==_refl (T.time % 256)) refl
    | no d ↦
        let (h, r) = w.live x ne in
        rw
          (
            ==_ne _ _ d,
            ==_ne (slot T.time x.expire) (T.time % 256)
                (λ k. d (fire_slot T.time x.expire w.time_in h r k)),
          )
          refl
  ]

  due-copies : (x : TimerNode) → copies x (T.near (T.time % 256)) ≡ due x
  due-copies x =
      let here : bucket T (T.time % 256) ≡ T.near (T.time % 256) = ground arith in
      ap (copies x) (sym here)
      ∙ w.bags x (T.time % 256) (omega arith)
      ∙ elim (ℕ_discrete (pending x) 0) [
        | yes z ↦
            rw z
              (if_zero (slot T.time x.expire == T.time % 256) ∙ sym (if_zero (x.expire == T.time)))
        | no ne ↦ ap (λ b. if b then pending x else 0) (fire_iff x ne)
      ]

  rest-copies :
      (x : TimerNode) (s : ℕ)
      → s < 512
      → copies x (bucket (timer_execute T).0 s) ≡ (if slot T.time x.expire == s then rest x else 0)
  rest-copies x s h =
      ap (copies x) ((timer_execute_lem T).2 s)
      ∙ copies-if x (ltb s 256 && (T.time % 256 == s)) (bucket T s)
      ∙ ap (λ k. if ltb s 256 && (T.time % 256 == s) then 0 else k) (w.bags x s h)
      ∙ combine (slot T.time x.expire) (T.time % 256) s (pending x) (x.expire == T.time)
          (omega arith)
          (elim (ℕ_discrete (pending x) 0) [ yes z ↦ inl z | no ne ↦ inr (fire_iff x ne) ])

  -- `timer_execute` dispatches exactly the events of the current tick.
  pub execute-IsWheel :
      IsWheel (timer_execute T).0 rest
      × ((x : TimerNode) → copies x (timer_execute T).1 ≡ due x)
      × ((timer_execute T).0.time ≡ T.time)
  execute-IsWheel = (
    record {
      time_in = rw ((timer_execute_lem T).0) w.time_in;
      live = λ x ne. rw ((timer_execute_lem T).0) (w.live x (ground arith));
      bags = λ x s h. rw ((timer_execute_lem T).0) (rest-copies x s h);
    },
    λ x. ap (copies x) (timer_execute_lem T).1 ∙ due-copies x,
    (timer_execute_lem T).0,
  )

  abbrev shifted : Timer
  shifted = timer_shift (timer_execute T).0

  not_yet : (x : TimerNode) → rest x ≢ 0 → 0 < remaining (timer_execute T).0.time x.expire
  not_yet x ne =
      let k : pending x ≢ 0 = ground arith in
      let d : x.expire ≢ T.time = ground arith in
      rw ((timer_execute_lem T).0) (omega (arith, (w.live x k).0, w.time_in))

  next-IsWheel : IsWheel shifted rest
  next-IsWheel = shift-IsWheel (execute-IsWheel.0) not_yet

  next_time : shifted.time ≡ (T.time + 1) % u32
  next_time = rw (time-timer_shift, (timer_execute_lem T).0) refl

IsWheel-ext :
    (T : Timer) {p q : TimerNode → ℕ} → ((x : TimerNode) → p x ≡ q x) → IsWheel T p → IsWheel T q
IsWheel-ext T h w = subst (IsWheel T) (fun_ext h) w

-- The two ticks that an update looks at.
two_ticks :
    (c e k : ℕ)
    → c < u32
    → (k ≢ 0 → e < u32)
    → let c' = (c + 1) % u32 in
      let stays = if e == c then 0 else k in
      ((if e == c' then 0 else stays) ≡ (if leb (remaining c e) 1 then 0 else k))
      × ((if e == c then k else 0) + (if e == c' then stays else 0)
          ≡ (if leb (remaining c e) 1 then k else 0))
two_ticks c e zero h f = (ground arith, ground arith)
two_ticks c e (suc k) h f = let g : e < u32 = f (λ z. cc) in (ground arith, ground arith)

-- One tick dispatches exactly the events that have at most one tick to go, each as often as it was
-- asked for; the others stay, and the clock has advanced by one.
pub timer_update_lem :
    {T : Timer} {pending : TimerNode → ℕ}
    → IsWheel T pending
    → let (T', fired) = timer_update T in
      IsWheel T' (λ x. if leb (remaining T.time x.expire) 1 then 0 else pending x)
      × ((x : TimerNode)
          → copies x fired ≡ (if leb (remaining T.time x.expire) 1 then pending x else 0))
      × (T'.time ≡ (T.time + 1) % u32)
unfolding timer_update
timer_update_lem {T} {pending} w =
    let e = execute-IsWheel w in
    let n = execute-IsWheel (next-IsWheel w) in
    let t = two_now w in
    (
      IsWheel-ext _ (λ x. (t x).0) n.0,
      λ x. copies-append x _ _ ∙ ap₂ ◌+◌ (e.1 x) (n.1 x) ∙ (t x).1,
      n.2 ∙ next_time w,
    )
  where
    two_now :
        (w : IsWheel T pending) (x : TimerNode)
        → (rest (next-IsWheel w) x ≡ (if leb (remaining T.time x.expire) 1 then 0 else pending x))
          × (due w x + due (next-IsWheel w) x
              ≡ (if leb (remaining T.time x.expire) 1 then pending x else 0))
    two_now w x =
        rw (next_time w) (two_ticks T.time x.expire (pending x) w.time_in (λ ne. (w.live x ne).0))
