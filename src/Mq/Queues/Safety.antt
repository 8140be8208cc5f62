-- ===== src/Mq/Queues/Safety.antt =====
-- skynet-src/skynet_mq.c and skynet-src/skynet_server.c: what holds in every state that the threads
-- can reach.
use paohuzi_server.Shared.{
  ℕ, ◌+◌, ◌≤◌, ◌<◌, ◌≡◌, refl, ◌≢◌, true, false, Option, none, some, List, [], ◌∷◌, arith, length,
  inl, inr, ◌⊎◌, Bool-cases, ◌*◌, ap, ◌∙◌, ℕ_discrete, dec_lt, update_same,
}
use paohuzi_server.Mq.{
  Message, MessageQueue, World, int_limit, mq_push, put, globalmq_pop, globalmq_push, mq_length,
}
use paohuzi_server.Mq.Ring.{store_message_lem}
use paohuzi_server.Mq.Global.{
  In, IsGlobal, IsGlobal-put, globalmq_push_lem, globalmq_pop_lem, globalmq_pop_empty,
}
use paohuzi_server.Mq.Queues.{System, Step, listed, Inv}
use paohuzi_server.Shared.Holders.{HeldBy, holders, holders_two, HeldBy-of_holders}
use paohuzi_server.Mq.Queues.Steps.{Step-Inv, Owned-le, at, held_exists, held-not_In, idle-not_In}

-- The state after `skynet_mq_init`.
abbrev pub start : System
start = record { world = record { heap = λ _. none; head = none; tail = none }; held = [] }

pub data Reach : System → Type 0 where
  here : Reach start
  next : {s t : System} → Reach s → Step s t → Reach t

start-Inv : Inv start []
start-Inv = record {
  global = record { links = refl; last = refl; distinct = tt; idle = λ a q e m. cc };
  owned = λ a. refl;
}

pub Reach-Inv : {s : System} → Reach s → (l : List ℕ) × Inv s l
Reach-Inv here = ([], start-Inv)
Reach-Inv (next r st) = let (l, inv) = Reach-Inv r in Step-Inv st inv

-- No two threads ever work on one message queue, so the messages of a service are handled one at a
-- time; and a queue that a thread works on is not on the global queue.
pub one_worker :
    {s : System} (i j a : ℕ)
    → Reach s
    → HeldBy i a s.held
    → HeldBy j a s.held
    → (i ≡ j) × ((l : List ℕ) × IsGlobal s.world l × (¬ In a l))
one_worker {s} i j a r m n =
    let (l, inv) = Reach-Inv r in
    let few : listed a l + holders a s.held ≤ 1 = Owned-le (s.world.heap a) _ (inv.owned a) in
    (
      elim (holders_two i j a s.held m n) [ inl same ↦ same | inr more ↦ absurd (omega arith) ],
      (l, inv.global, held-not_In inv i a m),
    )

In-of_listed : (a : ℕ) (l : List ℕ) → 0 < listed a l → In a l
In-of_listed a [] h = absurd (omega arith)
In-of_listed a (x ∷ l) h = elim (ℕ_discrete a x) [
  | yes e ↦ inl e
  | no ne ↦ inr (In-of_listed a l (ground arith))
]

-- No message is stranded: a queue that holds messages is on the global queue, or a thread works on
-- it.
pub no_message_stranded :
    {s : System} (a : ℕ) (q : MessageQueue)
    → Reach s
    → s.world.heap a ≡ some q
    → mq_length q ≢ 0
    → (l : List ℕ) × IsGlobal s.world l × (In a l ⊎ ((i : ℕ) × HeldBy i a s.held))
no_message_stranded {s} a q r e busy =
    let (l, inv) = Reach-Inv r in
    let o = at inv e in
    let full : q.in_global ≢ false = λ f. busy (o.2.1.count ∙ ap length (o.2.2 f)) in
    let one : listed a l + holders a s.held ≡ 1 = ground (arith, o.1) in
    (
      l,
      inv.global,
      elim (dec_lt 0 (listed a l)) [
        | yes h ↦ inl (In-of_listed a l h)
        | no h ↦ inr (HeldBy-of_holders a s.held (omega arith))
      ],
    )

-- In every reachable state a push to a queue that exists succeeds while twice its new length is an
-- `int`: neither an assert nor an access faults.
pub mq_push_total :
    {s : System} (a : ℕ) (m : Message) (q : MessageQueue)
    → Reach s
    → s.world.heap a ≡ some q
    → q.release ≡ false
    → (mq_length q + 1) * 2 < int_limit
    → (w : World) × (mq_push s.world a m ≡ some w)
unfolding mq_push
mq_push_total {s} a m q r e live small =
    let (l, inv) = Reach-Inv r in
    let o = at inv e in
    let k = store_message_lem m o.0 o.2.1 (ground (arith, o.2.1.count)) in
    elim (Bool-cases ((k.0).in_global)) [
      | inl busy ↦ (put s.world a k.0, ground (arith, e, k.1))
      | inr idle ↦
          let q' : MessageQueue = record (k.0) { in_global = true } in
          let g =
            globalmq_push_lem l (IsGlobal-put q' inv.global e k.6)
              (update_same s.world.heap a a (some q') refl)
              (idle-not_In inv e (ground (arith, k.4))) in
          (g.0, ground (arith, e, k.1, g.1))
    ]

-- In every reachable state the global queue can be popped, and a held queue can be given back: the
-- asserts on the links hold.
pub globalmq_total :
    {s : System} (i a : ℕ)
    → Reach s
    → ((r : World × Option ℕ) × (globalmq_pop s.world ≡ some r))
      × (HeldBy i a s.held → (w : World) × (globalmq_push s.world a ≡ some w))
globalmq_total {s} i a r = let (l, inv) = Reach-Inv r in (popped l inv, λ m. pushed l inv m)
  where
    popped : (l : List ℕ) → Inv s l → (r : World × Option ℕ) × (globalmq_pop s.world ≡ some r)
    popped [] inv = ((s.world, none), globalmq_pop_empty inv.global)
    popped (x ∷ l) inv = let g = globalmq_pop_lem inv.global in ((g.0, some x), g.1)

    pushed :
        (l : List ℕ)
        → Inv s l
        → HeldBy i a s.held
        → (w : World) × (globalmq_push s.world a ≡ some w)
    pushed l inv m =
        let f = held_exists inv i a m in
        let g = globalmq_push_lem l inv.global f.1 (held-not_In inv i a m) in (g.0, g.1)
