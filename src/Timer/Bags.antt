-- ===== src/Timer/Bags.antt =====
-- skynet-src/skynet_timer.c: what `link`, `add_node` and `move_list` do to each bucket, counted for
-- one node at a time.
use Prim.Native.Nat.{bit_or}
use paohuzi_server.Shared.{
  ℕ, zero, ◌+◌, ◌-◌, ◌*◌, ◌/◌, ◌%◌, ◌^◌, ◌<◌, ◌≡◌, refl, ◌≢◌, inl, inr, Bool, true, false, ◌&&◌,
  List, [], ◌∷◌, ◌++◌, ltb, ◌==◌, if◌then◌else◌, arith, update, ◌∙◌, sym, ap, ℕ_discrete, ==_ne,
  ==_refl, Bool-cases, lt→ltb, subst,
}
use native.Mathlib.Nat.{add_assoc}
use paohuzi_server.Shared.Bits.{bit_and_ones, bit_or_ones}
use paohuzi_server.Timer.{
  Timer, TimerNode, u32, update_level, link, find_level, add_node, add_nodes,
}
use paohuzi_server.Timer.Slot.{slot}

abbrev pub one_if : Bool → ℕ
one_if true = 1
one_if false = 0

abbrev pub node_eq : TimerNode → TimerNode → Bool
node_eq x n = (x.expire == n.expire) && ((x.handle == n.handle) && (x.session == n.session))

-- How often a node stands in a list.
abbrev pub copies : TimerNode → List TimerNode → ℕ
copies x [] = 0
copies x (n ∷ l) = one_if (node_eq x n) + copies x l

pub copies-append :
    (x : TimerNode) (l m : List TimerNode) → copies x (l ++ m) ≡ copies x l + copies x m
copies-append x [] m = omega arith
copies-append x (n ∷ l) m = omega (arith, copies-append x l m)

-- The bucket of a slot.
abbrev pub bucket : Timer → ℕ → List TimerNode
bucket T s = if ltb s 256 then T.near s else T.t ((s - 256) / 64) ((s - 256) % 64)

or_eq_8 : (a b : ℕ) → (bit_or a (2 ^ 8 - 1) == bit_or b (2 ^ 8 - 1)) ≡ (a / 2 ^ 8 == b / 2 ^ 8)
or_eq_8 a b = ground (arith, bit_or_ones 8 a, bit_or_ones 8 b)

or_eq_14 : (a b : ℕ) → (bit_or a (2 ^ 14 - 1) == bit_or b (2 ^ 14 - 1)) ≡ (a / 2 ^ 14 == b / 2 ^ 14)
or_eq_14 a b = ground (arith, bit_or_ones 14 a, bit_or_ones 14 b)

or_eq_20 : (a b : ℕ) → (bit_or a (2 ^ 20 - 1) == bit_or b (2 ^ 20 - 1)) ≡ (a / 2 ^ 20 == b / 2 ^ 20)
or_eq_20 a b = ground (arith, bit_or_ones 20 a, bit_or_ones 20 b)

or_eq_26 : (a b : ℕ) → (bit_or a (2 ^ 26 - 1) == bit_or b (2 ^ 26 - 1)) ≡ (a / 2 ^ 26 == b / 2 ^ 26)
or_eq_26 a b = ground (arith, bit_or_ones 26 a, bit_or_ones 26 b)

-- The level that `add_node` chooses.
abbrev level : ℕ → ℕ → ℕ
level e c =
    if e / 2 ^ 14 == c / 2 ^ 14
    then 0
    else if e / 2 ^ 20 == c / 2 ^ 20
    then 1
    else if e / 2 ^ 26 == c / 2 ^ 26
    then 2
    else 3

find_level_lem : (e c : ℕ) → find_level 3 0 (2 ^ 8 * 2 ^ 6) e c ≡ level e c
unfolding find_level
find_level_lem e c = rw (or_eq_14, or_eq_20, or_eq_26) refl

slot-level :
    (e c : ℕ)
    → e / 2 ^ 8 ≢ c / 2 ^ 8
    → (e < u32)
    → slot c e ≡ 256 + (level e c * 64 + e / 2 ^ (8 + level e c * 6) % 64)
slot-level e c ne h = ground arith

add_node_near :
    (T : Timer) (n : TimerNode)
    → n.expire / 2 ^ 8 ≡ T.time / 2 ^ 8
    → add_node T n
      ≡ record T { near = update T.near (n.expire % 256) (link (T.near (n.expire % 256)) n) }
unfolding add_node
add_node_near T n h = rw (or_eq_8, h, ==_refl (T.time / 2 ^ 8), bit_and_ones 8) refl

add_node-level :
    (T : Timer) (n : TimerNode)
    → n.expire / 2 ^ 8 ≢ T.time / 2 ^ 8
    → let i = level n.expire T.time in
      let idx = n.expire / 2 ^ (8 + i * 6) % 64 in
      add_node T n ≡ record T { t = update_level T.t i idx (link (T.t i idx) n) }
unfolding add_node
add_node-level T n h = rw (or_eq_8, ==_ne _ _ h, find_level_lem, bit_and_ones 6) refl

module _ (x : TimerNode) (T : Timer) (n : TimerNode) where
  copies-near :
      (j s : ℕ)
      → j < 256
      → copies x (bucket (record T { near = update T.near j (link (T.near j) n) }) s)
        ≡ copies x (bucket T s) + (if j == s then one_if (node_eq x n) else 0)
  copies-near j s h = elim (ℕ_discrete j s) [
    | yes e ↦ rw (← e, ==_refl j, lt→ltb _ _ h, copies-append) (omega arith)
    | no ne ↦ rw (==_ne _ _ ne) (omega arith)
  ]

  copies-level :
      (i j s : ℕ)
      → j < 64
      → copies x (bucket (record T { t = update_level T.t i j (link (T.t i j) n) }) s)
        ≡ copies x (bucket T s) + (if 256 + (i * 64 + j) == s then one_if (node_eq x n) else 0)
  copies-level i j s h = elim (Bool-cases (ltb s 256)) [
    | inl low ↦ rw (==_ne (256 + (i * 64 + j)) s (ground arith), low) (omega arith)
    | inr high ↦ elim (ℕ_discrete (256 + (i * 64 + j)) s) [
      | yes e ↦
          let a : (s - 256) / 64 ≡ i = omega arith in
          let b : (s - 256) % 64 ≡ j = omega arith in
          rw (high, a, b, e, ==_refl s, ==_refl i, ==_refl j, copies-append) (omega arith)
      | no ne ↦ elim (ℕ_discrete i ((s - 256) / 64)) [
        | yes a ↦
            let b : j ≢ (s - 256) % 64 = ground arith in
            rw (high, ==_ne _ _ ne, ← a, ==_refl i, ==_ne _ _ b) (omega arith)
        | no a ↦ rw (high, ==_ne _ _ ne, ==_ne _ _ a) (omega arith)
      ]
    ]
  ]

  -- `add_node` appends the node to the bucket of its slot, and leaves the others.
  pub bucket-add_node :
      (s : ℕ)
      → n.expire < u32
      → copies x (bucket (add_node T n) s)
        ≡ copies x (bucket T s) + (if slot T.time n.expire == s then one_if (node_eq x n) else 0)
  bucket-add_node s h = elim (ℕ_discrete (n.expire / 2 ^ 8) (T.time / 2 ^ 8)) [
    | yes e ↦
        let at : slot T.time n.expire ≡ n.expire % 256 = ground arith in
        rw (add_node_near T n e, at) (copies-near (n.expire % 256) s (omega arith))
    | no ne ↦
        rw (add_node-level T n ne, slot-level n.expire T.time ne h)
          (copies-level (level n.expire T.time)
            (n.expire / 2 ^ (8 + level n.expire T.time * 6) % 64) s (omega arith))
  ]

-- A tick of the clock is the only change that `add_node` leaves alone.
pub time-add_node : (T : Timer) (n : TimerNode) → (add_node T n).time ≡ T.time
unfolding add_node
time-add_node T n = ground arith

pub time-add_nodes : (T : Timer) (l : List TimerNode) → (add_nodes T l).time ≡ T.time
unfolding add_nodes
time-add_nodes T [] = refl
time-add_nodes T (n ∷ l) = time-add_nodes (add_node T n) l ∙ time-add_node T n

-- Every node of the list, at its slot.
abbrev pub AllBelow : List TimerNode → Type 0
AllBelow [] = Unit
AllBelow (n ∷ l) = (n.expire < u32) × AllBelow l

node_eq-expire : (x n : TimerNode) → node_eq x n ≡ true → n.expire ≡ x.expire
node_eq-expire x n h = ground arith

pub if_zero : (b : Bool) → (if b then zero else zero) ≡ 0
if_zero true = refl
if_zero false = refl

pub if_sum :
    (b : Bool) (m k : ℕ) → (if b then m + k else 0) ≡ (if b then m else 0) + (if b then k else 0)
if_sum true m k = refl
if_sum false m k = refl

-- Equal nodes have one slot.
pub own_slot :
    (c s : ℕ) (x n : TimerNode)
    → (if slot c n.expire == s then one_if (node_eq x n) else 0)
      ≡ (if slot c x.expire == s then one_if (node_eq x n) else 0)
own_slot c s x n = elim (Bool-cases (node_eq x n)) [
  | inl same ↦ ap (λ e. if slot c e == s then one_if (node_eq x n) else 0) (node_eq-expire x n same)
  | inr other ↦ rw other (if_zero (slot c n.expire == s) ∙ sym (if_zero (slot c x.expire == s)))
]

pub bucket-add_nodes :
    (x : TimerNode) (l : List TimerNode) (T : Timer) (s : ℕ)
    → AllBelow l
    → copies x (bucket (add_nodes T l) s)
      ≡ copies x (bucket T s) + (if slot T.time x.expire == s then copies x l else 0)
unfolding add_nodes
bucket-add_nodes x [] T s h = rw (if_zero (slot T.time x.expire == s)) (omega arith)
bucket-add_nodes x (n ∷ l) T s h =
    let ih =
      subst
        (λ c.
          copies x (bucket (add_nodes (add_node T n) l) s)
          ≡ copies x (bucket (add_node T n) s) + (if slot c x.expire == s then copies x l else 0))
        (time-add_node T n) (bucket-add_nodes x l (add_node T n) s h.1) in
    ih
    ∙ ap (λ k. k + (if slot T.time x.expire == s then copies x l else 0))
        (bucket-add_node x T n s h.0 ∙ ap (λ k. copies x (bucket T s) + k) (own_slot T.time s x n))
    ∙ add_assoc _ _ _
    ∙ ap (λ k. copies x (bucket T s) + k)
        (sym (if_sum (slot T.time x.expire == s) (one_if (node_eq x n)) (copies x l)))
