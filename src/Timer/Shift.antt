-- ===== src/Timer/Shift.antt =====
-- skynet-src/skynet_timer.c: `timer_shift` keeps each event to come in the bucket of its slot.
use paohuzi_server.Shared.{
  ℕ, ◌+◌, ◌-◌, ◌*◌, ◌/◌, ◌%◌, ◌^◌, ◌≤◌, ◌<◌, ◌≡◌, refl, ◌≢◌, ◌⊎◌, inl, inr, Option, none, some,
  false, List, [], ◌∷◌, ltb, ◌==◌, if◌then◌else◌, arith, ◌∙◌, sym, ap, ap₂, ℕ_discrete, ==_ne,
  ==_refl, Bool-cases, subst, Option-cases,
}
use paohuzi_server.Shared.Bits.{bit_and_ones}
use paohuzi_server.Timer.{Timer, TimerNode, u32, update_level, move_list, shift_loop, timer_shift}
use paohuzi_server.Timer.Slot.{slot, moved, remaining, shift_slot, moved_1, moved_2, moved_3}
use paohuzi_server.Timer.Bags.{copies, bucket, AllBelow, bucket-add_nodes, time-add_nodes}

-- The wheel holds the bag `pending`, which says how often each node is to come: every node lies in
-- the bucket where it would be put now, and nowhere else.
pub record IsWheel (T : Timer) (pending : TimerNode → ℕ) : Type 0 where
  pub time_in : T.time < u32
  pub live :
      (x : TimerNode) → pending x ≢ 0 → (x.expire < u32) × (remaining T.time x.expire < 2 ^ 31)
  pub bags :
      (x : TimerNode) (s : ℕ)
      → s < 512
      → copies x (bucket T s) ≡ (if slot T.time x.expire == s then pending x else 0)

move_slot : Option ℕ → Timer → Timer
move_slot none T = T
move_slot (some s) T = move_list T ((s - 256) / 64) ((s - 256) % 64)

shift_loop_lem :
    (ct : ℕ) (T : Timer)
    → ct < u32
    → ct ≢ 0
    → shift_loop 4 ct 256 (ct / 2 ^ 8) 0 T ≡ move_slot (moved ct) T
unfolding shift_loop move_slot
shift_loop_lem ct T h ne =
    rw
      (
        bit_and_ones 8 ct,
        bit_and_ones 14 ct,
        bit_and_ones 20 ct,
        bit_and_ones 26 ct,
        bit_and_ones 6 (ct / 2 ^ 8),
        bit_and_ones 6 (ct / 2 ^ 8 / 2 ^ 6),
        bit_and_ones 6 (ct / 2 ^ 8 / 2 ^ 6 / 2 ^ 6),
        bit_and_ones 6 (ct / 2 ^ 8 / 2 ^ 6 / 2 ^ 6 / 2 ^ 6),
      )
      (elim (ℕ_discrete (ct % 2 ^ 8) 0) [
        | no a ↦ rw (==_ne _ _ a) refl
        | yes a ↦ elim (ℕ_discrete (ct / 2 ^ 8 % 64) 0) [
          | no b ↦ rw (a, ==_ne _ _ b) (ap₂ (move_list T) (omega arith) (omega arith))
          | yes b ↦
              let a' : ct % 2 ^ 14 ≡ 0 = omega arith in
              elim (ℕ_discrete (ct / 2 ^ 8 / 2 ^ 6 % 64) 0) [
                | no d ↦
                    rw (moved_1 ct a' (omega arith), a, b, a', ==_ne _ _ d)
                      (ap₂ (move_list T) (omega arith) (omega arith))
                | yes d ↦
                    let b' : ct % 2 ^ 20 ≡ 0 = omega arith in
                    elim (ℕ_discrete (ct / 2 ^ 8 / 2 ^ 6 / 2 ^ 6 % 64) 0) [
                      | no f ↦
                          rw (moved_2 ct b' (omega arith), a, b, a', d, b', ==_ne _ _ f)
                            (ap₂ (move_list T) (omega arith) (omega arith))
                      | yes f ↦
                          let d' : ct % 2 ^ 26 ≡ 0 = omega arith in
                          let f' : ct / 2 ^ 8 / 2 ^ 6 / 2 ^ 6 / 2 ^ 6 % 64 ≢ 0 = omega arith in
                          rw (moved_3 ct d', a, b, a', d, b', f, d', ==_ne _ _ f')
                            (ap₂ (move_list T) (omega arith) (omega arith))
                    ]
              ]
        ]
      ])

timer_shift_lem :
    (T : Timer)
    → let ct = (T.time + 1) % u32 in timer_shift T ≡ move_slot (moved ct) (record T { time = ct })
unfolding timer_shift move_slot
timer_shift_lem T = elim (ℕ_discrete ((T.time + 1) % u32) 0) [
  | yes z ↦ rw z refl
  | no ne ↦ rw (==_ne _ _ ne) (
      shift_loop_lem ((T.time + 1) % u32) (record T { time = (T.time + 1) % u32 }) (omega arith) ne)
]

-- An emptied bucket, and the others.
copies-cleared :
    (x : TimerNode) (T : Timer) (i j s : ℕ)
    → j < 64
    → copies x (bucket (record T { t = update_level T.t i j [] }) s)
      ≡ (if 256 + (i * 64 + j) == s then 0 else copies x (bucket T s))
copies-cleared x T i j s h = elim (Bool-cases (ltb s 256)) [
  | inl low ↦ rw (==_ne (256 + (i * 64 + j)) s (ground arith), low) refl
  | inr high ↦ elim (ℕ_discrete (256 + (i * 64 + j)) s) [
    | yes e ↦
        let a : (s - 256) / 64 ≡ i = omega arith in
        let b : (s - 256) % 64 ≡ j = omega arith in
        rw (high, a, b, e, ==_refl s, ==_refl i, ==_refl j) refl
    | no ne ↦ elim (ℕ_discrete i ((s - 256) / 64)) [
      | yes a ↦
          let b : j ≢ (s - 256) % 64 = ground arith in
          rw (high, ==_ne _ _ ne, ← a, ==_refl i, ==_ne _ _ b) refl
      | no a ↦ rw (high, ==_ne _ _ ne, ==_ne _ _ a) refl
    ]
  ]
]

AllBelow-of_copies :
    (l : List TimerNode) → ((x : TimerNode) → 0 < copies x l → x.expire < u32) → AllBelow l
AllBelow-of_copies [] h = tt
AllBelow-of_copies (n ∷ l) h = (
  h n (ground (arith, ==_refl n.expire, ==_refl n.handle, ==_refl n.session)),
  AllBelow-of_copies l (λ x p. h x (omega arith)),
)

moved_range : (c : ℕ) {s : ℕ} → moved c ≡ some s → (256 ≤ s) × (s < 512)
moved_range c h = ground arith

time-move_slot : (o : Option ℕ) (T : Timer) → (move_slot o T).time ≡ T.time
unfolding move_slot move_list
time-move_slot none T = refl
time-move_slot (some s) T = time-add_nodes _ _

pub time-timer_shift : (T : Timer) → (timer_shift T).time ≡ (T.time + 1) % u32
time-timer_shift T = rw (timer_shift_lem T) (time-move_slot _ _)

combine :
    (m s u v k : ℕ)
    → (k ≡ 0) ⊎ ((m ≡ u) ⊎ (v ≡ u))
    → (if m == s then 0 else if u == s then k else 0)
        + (if v == s then if u == m then k else 0 else 0)
      ≡ (if v == s then k else 0)
combine m s u v k h = ground arith

module _ {T : Timer} {pending : TimerNode → ℕ} (w : IsWheel T pending) where
  -- A tick before which no event is due keeps the wheel.
  module _ (later : (x : TimerNode) → pending x ≢ 0 → 0 < remaining T.time x.expire) where
    abbrev ct : ℕ
    ct = (T.time + 1) % u32

    abbrev ticked : Timer
    ticked = record T { time = ct }

    slots :
        (x : TimerNode)
        → (pending x ≡ 0)
          ⊎ ((moved ct ≡ some (slot T.time x.expire)) ⊎ (slot ct x.expire ≡ slot T.time x.expire))
    slots x = elim (ℕ_discrete (pending x) 0) [
      | yes z ↦ inl z
      | no ne ↦
          let (e, r) = w.live x ne in inr (shift_slot T.time x.expire w.time_in e (later x ne) r)
    ]

    unmoved_bags :
        (x : TimerNode) (s : ℕ)
        → moved ct ≡ none
        → s < 512
        → copies x (bucket T s) ≡ (if slot ct x.expire == s then pending x else 0)
    unmoved_bags x s none_moved h = w.bags x s h ∙ elim (slots x) [
      | inl z ↦ rw z (ground arith)
      | inr (inl m) ↦ absurd (ground (arith, none_moved, m))
      | inr (inr e) ↦ ap (λ u. if u == s then pending x else 0) (sym e)
    ]

    moved_bags :
        (x : TimerNode) (m s : ℕ)
        → moved ct ≡ some m
        → s < 512
        → copies x (bucket (move_slot (some m) ticked) s)
          ≡ (if slot ct x.expire == s then pending x else 0)
    unfolding move_slot move_list
    moved_bags x m s is_m h =
        bucket-add_nodes x (T.t i j) (record ticked { t = update_level T.t i j [] }) s below
        ∙ ap₂ ◌+◌ (copies-cleared x ticked i j s (omega arith) ∙ rw (at_m, w.bags x s h) refl)
            (ap (λ k. if slot ct x.expire == s then k else 0) from)
        ∙ combine m s (slot T.time x.expire) (slot ct x.expire) (pending x) cases
      where
        i : ℕ
        i = (m - 256) / 64

        j : ℕ
        j = (m - 256) % 64

        at_m : 256 + (i * 64 + j) ≡ m
        at_m = omega (arith, moved_range ct is_m)

        in_m : ltb m 256 ≡ false
        in_m = ground (arith, moved_range ct is_m)

        list_m : bucket T m ≡ T.t i j
        list_m = rw in_m refl

        from_any :
            (y : TimerNode)
            → copies y (T.t i j) ≡ (if slot T.time y.expire == m then pending y else 0)
        from_any y = ap (copies y) (sym list_m) ∙ w.bags y m (moved_range ct is_m).1

        from : copies x (T.t i j) ≡ (if slot T.time x.expire == m then pending x else 0)
        from = from_any x

        below : AllBelow (T.t i j)
        below = AllBelow-of_copies (T.t i j) (λ y p. (w.live y (ground (arith, from_any y))).0)

        cases :
            (pending x ≡ 0)
            ⊎ ((m ≡ slot T.time x.expire) ⊎ (slot ct x.expire ≡ slot T.time x.expire))
        cases = elim (slots x) [
          | inl z ↦ inl z
          | inr (inl e) ↦ inr (inl (ground (arith, is_m, e)))
          | inr (inr e) ↦ inr (inr e)
        ]

    shifted_bags :
        (x : TimerNode) (s : ℕ)
        → s < 512
        → copies x (bucket (move_slot (moved ct) ticked) s)
          ≡ (if slot ct x.expire == s then pending x else 0)
    unfolding move_slot
    shifted_bags x s h = elim (Option-cases (moved ct)) [
      | inl n ↦
          subst
            (λ o.
              copies x (bucket (move_slot o ticked) s)
              ≡ (if slot ct x.expire == s then pending x else 0))
            (sym n) (unmoved_bags x s n h)
      | inr (m, e) ↦
          subst
            (λ o.
              copies x (bucket (move_slot o ticked) s)
              ≡ (if slot ct x.expire == s then pending x else 0))
            (sym e) (moved_bags x m s e h)
    ]

    pub shift-IsWheel : IsWheel (timer_shift T) pending
    shift-IsWheel = record {
      time_in = rw (time-timer_shift T) (omega arith);
      live = λ x ne.
          let (e, r) = w.live x ne in
          let l = later x ne in (e, rw (time-timer_shift T) (omega (arith, w.time_in)));
      bags = λ x s h. rw (timer_shift_lem T, time-move_slot) (shifted_bags x s h);
    }
