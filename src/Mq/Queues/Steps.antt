-- ===== src/Mq/Queues/Steps.antt =====
-- skynet-src/skynet_mq.c with its callers in skynet-src/skynet_server.c: which thread may work on a
-- message queue. A step is one call that the locks make atomic. A thread holds a queue from the
-- call that took it off the global queue (or created it) to the one that gave it back.
use paohuzi_server.Shared.{
  ℕ, suc, ◌+◌, ◌≤◌, ◌<◌, ◌≡◌, refl, ◌≢◌, true, false, Option, none, some, List, [], ◌∷◌, ◌++◌,
  arith, ◌==◌, if◌then◌else◌, inl, inr, update, update_same, update_ne, ℕ_discrete, ◌∙◌, ap, ◌||◌,
  Option-cases, Bool-cases, subst,
}
use paohuzi_server.Mq.{
  Message, MessageQueue, World, put, create, take_overload, globalmq_push, globalmq_pop, mq_push,
  mq_pop, mark_release, mq_release, drop_queue, drain, store_message, mq_length,
}
use paohuzi_server.Mq.Ring.{
  store_message_ok, mq_pop-some, mq_pop-none, Holds-same_ring, create-IsValid, create-Holds,
}
use paohuzi_server.Mq.Global.{
  In, IsGlobal-put, IsGlobal-replace, fresh-not_In, SameButNext, globalmq_push_lem,
  globalmq_pop_lem, globalmq_pop_empty,
}
use paohuzi_server.Mq.Queues.{
  System, let_go, Step, make, send, take, give, work, report, park, mark, clear, listed, Owned, Inv,
}
use paohuzi_server.Shared.Holders.{
  Held, HeldBy, remove, one_if, holders, holders-remove, holders_pos, one_if-le,
}

listed-append : (a b : ℕ) (l : List ℕ) → listed a (l ++ b ∷ []) ≡ listed a l + one_if (a == b)
listed-append a b [] = omega arith
listed-append a b (x ∷ l) = omega (arith, listed-append a b l)

pub listed_pos : (a : ℕ) (l : List ℕ) → In a l → 0 < listed a l
listed_pos a [] m = elim m [ ]
listed_pos a (x ∷ l) (inl e) = ground arith
listed_pos a (x ∷ l) (inr m) = omega (arith, listed_pos a l m)

Owned-SameButNext : (o o' : Option MessageQueue) (n : ℕ) → SameButNext o o' → Owned o n → Owned o' n
unfolding mq_length
Owned-SameButNext none none n s h = h
Owned-SameButNext none (some q') n s h = elim s [ ]
Owned-SameButNext (some q) none n s h = elim s [ ]
Owned-SameButNext (some q) (some q') n s h = rw s (
  ground (arith, h.0),
  ground (arith, h.1),
  (h.2.0, record { count = (h.2.1).count; cells = (h.2.1).cells }, (h.2).2),
)

Owned-count : (o : Option MessageQueue) {n k : ℕ} → n ≡ k → Owned o n → Owned o k
Owned-count o e h = subst (Owned o) e h

pub Owned-le : (o : Option MessageQueue) (n : ℕ) → Owned o n → n ≤ 1
Owned-le none n h = omega arith
Owned-le (some q) n h = omega (arith, h.1, one_if-le (q.in_global || q.release))

Owned-put :
    (heap : ℕ → Option MessageQueue) (a : ℕ) (o : Option MessageQueue) (k : ℕ → ℕ)
    → Owned o (k a)
    → ((b : ℕ) → a ≢ b → Owned (heap b) (k b))
    → (b : ℕ) → Owned (update heap a o b) (k b)
Owned-put heap a o k h other b = elim (ℕ_discrete a b) [
  | yes same ↦ rw (update_same heap a b o same) (subst (λ c. Owned o (k c)) same h)
  | no ne ↦ rw (update_ne heap a b o ne) (other b ne)
]

module _ {s : System} {l : List ℕ} (inv : Inv s l) where
  pub at :
      {a : ℕ} {o : Option MessageQueue}
      → s.world.heap a ≡ o
      → Owned o (listed a l + holders a s.held)
  at {a} e = subst (λ o. Owned o (listed a l + holders a s.held)) e (inv.owned a)

  -- A held queue exists, and is not on the global queue.
  pub held_exists : (i a : ℕ) → HeldBy i a s.held → (q : MessageQueue) × (s.world.heap a ≡ some q)
  held_exists i a m = elim (Option-cases (s.world.heap a)) [
    | inl e ↦ absurd (omega (arith, at e, holders_pos i a s.held m))
    | inr f ↦ f
  ]

  pub held-not_In : (i a : ℕ) → HeldBy i a s.held → ¬ In a l
  held-not_In i a m k =
      omega (
        arith,
        Owned-le (s.world.heap a) _ (inv.owned a),
        holders_pos i a s.held m,
        listed_pos a l k,
      )

  pub idle-not_In :
      {a : ℕ} {q : MessageQueue}
      → s.world.heap a ≡ some q
      → (q.in_global || q.release) ≡ false
      → ¬ In a l
  idle-not_In {a} {q} e f k = ground (arith, at e, listed_pos a l k)

  -- The queue at `a` changes, and the owners are as many as `q'` says.
  put-Inv :
      {a : ℕ} {q : MessageQueue} (q' : MessageQueue) (held' : Held)
      → s.world.heap a ≡ some q
      → q'.next ≡ q.next
      → Owned (some q') (listed a l + holders a held')
      → ((b : ℕ) → a ≢ b → holders b held' ≡ holders b s.held)
      → Inv (record { world = put s.world a q'; held = held' }) l
  put-Inv {a} q' held' e n o same = record {
    global = IsGlobal-put q' inv.global e n;
    owned =
        Owned-put s.world.heap a (some q') (λ b. listed b l + holders b held') o
          λ b ne. Owned-count _ (omega (arith, same b ne)) (inv.owned b);
  }

  give-Inv :
      (i a : ℕ) {w : World}
      → HeldBy i a s.held
      → globalmq_push s.world a ≡ some w
      → Inv (let_go s w i a) (l ++ a ∷ [])
  give-Inv i a {w} m e =
      let f = held_exists i a m in
      let g = globalmq_push_lem l inv.global f.1 (held-not_In i a m) in
      let same : w ≡ g.0 = ground (arith, g.1) in
      rw same (record {
        global = g.2;
        owned = λ b. Owned-SameButNext _ _ _ (g.3 b) (
            Owned-count _ (omega (arith, listed-append b a l, holders-remove i a b s.held m))
              (inv.owned b));
      })

  -- The queue at `a` changes, and goes to the global queue.
  wake-Inv :
      {a : ℕ} {q : MessageQueue} (q' : MessageQueue) {w : World}
      → s.world.heap a ≡ some q
      → q'.next ≡ q.next
      → (¬ In a l)
      → globalmq_push (put s.world a q') a ≡ some w
      → Owned (some q') (suc (listed a l + holders a s.held))
      → Inv (record { world = w; held = s.held }) (l ++ a ∷ [])
  wake-Inv {a} q' {w} e n out p o =
      let here = update_same s.world.heap a a (some q') refl in
      let g = globalmq_push_lem l (IsGlobal-put q' inv.global e n) here out in
      let same : w ≡ g.0 = ground (arith, g.1) in
      rw same (record {
        global = g.2;
        owned = λ b. Owned-SameButNext _ _ _ (g.3 b) (
            Owned-put s.world.heap a (some q') (λ c. listed c (l ++ a ∷ []) + holders c s.held)
              (Owned-count (some q') {n = suc (listed a l + holders a s.held)}
                {k = listed a (l ++ a ∷ []) + holders a s.held}
                (ground (arith, listed-append a a l)) o)
              (λ c ne. Owned-count _ (ground (arith, listed-append c a l)) (inv.owned c)) b);
      })

  send_stored :
      {a : ℕ} (m : Message) {q q' : MessageQueue} {w : World}
      → s.world.heap a ≡ some q
      → q.release ≡ false
      → store_message q m ≡ some q'
      → (if q'.in_global
          then some (put s.world a q')
          else globalmq_push (put s.world a (record q' { in_global = true })) a)
        ≡ some w
      → (l' : List ℕ) × Inv (record { world = w; held = s.held }) l'
  send_stored {a} m {q} {q'} {w} e live stored p =
      let o = at e in
      let k = store_message_ok m o.0 o.2.1 stored in
      elim (Bool-cases (q'.in_global)) [
        | inl busy ↦
            let same : w ≡ put s.world a q' = ground arith in
            (
              l,
              rw same (
                  put-Inv q' s.held e k.4
                    (k.0, ground (arith, o.1, k.2, k.3), (o.2.0 ++ m ∷ [], k.1, λ f. cc))
                    (λ b ne. refl)),
            )
        | inr idle ↦ (
          l ++ a ∷ [],
          wake-Inv (record q' { in_global = true }) e k.4 (idle-not_In e (ground (arith, k.2)))
              (ground arith)
              (
                ground (arith, k.0),
                ground (arith, o.1, k.2),
                (o.2.0 ++ m ∷ [], Holds-same_ring q' _ refl refl refl refl k.1, λ f. cc),
              ),
        )
      ]

  send-Inv :
      {a : ℕ} (m : Message) {q : MessageQueue} {w : World}
      → s.world.heap a ≡ some q
      → q.release ≡ false
      → mq_push s.world a m ≡ some w
      → (l' : List ℕ) × Inv (record { world = w; held = s.held }) l'
  unfolding mq_push
  send-Inv {a} m {q} {w} e live p = elim (Option-cases (store_message q m)) [
    | inl fault ↦ absurd (ground (arith, e, fault))
    | inr stored ↦ send_stored m {q' = stored.0} e live stored.1 (ground (arith, e, stored.1))
  ]

-- Each step keeps the invariant.
take-Inv :
    (l : List ℕ) {s : System} (i a : ℕ) {w : World}
    → Inv s l
    → globalmq_pop s.world ≡ some (w, some a)
    → (l' : List ℕ) × Inv (record { world = w; held = (i, a) ∷ s.held }) l'
take-Inv [] i a inv e = cc (globalmq_pop_empty inv.global)
take-Inv (x ∷ l) {s} i a {w} inv e =
    let g = globalmq_pop_lem inv.global in
    let same : w ≡ g.0 = ground (arith, g.1) in
    let first : a ≡ x = ground (arith, g.1) in
    (
      l,
      rw same (record {
        global = g.2;
        owned = λ b. Owned-SameButNext _ _ _ (g.3 b) (Owned-count _ (ground arith) (inv.owned b));
      }),
    )

make-Inv :
    {s : System} {l : List ℕ} (i a handle : ℕ)
    → Inv s l
    → s.world.heap a ≡ none
    → Inv (record { world = put s.world a (create handle); held = (i, a) ∷ s.held }) l
unfolding create
make-Inv {s} {l} i a handle inv e = record {
  global =
      IsGlobal-replace a (some (create handle)) inv.global (fresh-not_In inv.global e)
        (λ q f. ground arith);
  owned =
      Owned-put s.world.heap a (some (create handle))
        (λ b. listed b l + holders b ((i, a) ∷ s.held))
        (create-IsValid handle, ground (arith, at inv e), ([], create-Holds handle, λ f. refl))
        (λ b ne. Owned-count _ (ground arith) (inv.owned b));
}

module _ {s : System} {l : List ℕ} (inv : Inv s l) where
  work-Inv :
      (i a : ℕ) (q q' : MessageQueue) (m : Message)
      → HeldBy i a s.held
      → s.world.heap a ≡ some q
      → mq_pop q ≡ some (q', some m)
      → Inv (record { world = put s.world a q'; held = s.held }) l
  work-Inv i a q q' m h e p =
      let o = at inv e in
      let k = mq_pop-some (o.2.0) o.0 o.2.1 p in
      put-Inv inv q' s.held e k.6
        (
          k.2,
          ground (arith, o.1, k.4, k.5),
          (k.0, k.3, λ f. absurd (ground (arith, o.2.2, k.1, k.4))),
        )
        (λ b ne. refl)

  report-Inv :
      (i a : ℕ) (q : MessageQueue)
      → s.world.heap a ≡ some q
      → Inv (record { world = put s.world a (take_overload q).0; held = s.held }) l
  unfolding take_overload
  report-Inv i a q e =
      let o = at inv e in
      put-Inv inv (take_overload q).0 s.held e (ground arith)
        (
          ground (arith, o.0),
          ground (arith, o.1),
          (
            o.2.0,
            Holds-same_ring q _ (ground arith) (ground arith) (ground arith) (ground arith) o.2.1,
            λ f. o.2.2 (ground arith),
          ),
        )
        (λ b ne. refl)

  park-Inv :
      (i a : ℕ) (q q' : MessageQueue)
      → HeldBy i a s.held
      → s.world.heap a ≡ some q
      → q.release ≡ false
      → mq_pop q ≡ some (q', none)
      → Inv (let_go s (put s.world a q') i a) l
  park-Inv i a q q' h e live p =
      let o = at inv e in
      let k = mq_pop-none (o.2.0) o.0 o.2.1 p in
      put-Inv inv q' (remove i a s.held) e (ground (arith, k.1))
        (
          ground (arith, o.0, k.1),
          ground (
            arith,
            k.1,
            holders-remove i a a s.held h,
            Owned-le (some q) (listed a l + holders a s.held) o,
          ),
          (
            o.2.0,
            Holds-same_ring q _ (ground (arith, k.1)) (ground (arith, k.1)) (ground (arith, k.1))
                (ground (arith, k.1)) o.2.1,
            λ f. k.0,
          ),
        )
        (λ b ne. ground (arith, holders-remove i a b s.held h))

  mark-Inv :
      (a : ℕ) (q : MessageQueue) {w : World}
      → s.world.heap a ≡ some q
      → mark_release s.world a ≡ some w
      → (l' : List ℕ) × Inv (record { world = w; held = s.held }) l'
  unfolding mark_release
  mark-Inv a q {w} e p =
      let o = at inv e in
      let live : q.release ≡ false = ground arith in
      elim (Bool-cases (q.in_global)) [
        | inl busy ↦
            let same : w ≡ put s.world a (record q { release = true }) = ground arith in
            (
              l,
              rw same (
                  put-Inv inv (record q { release = true }) s.held e refl
                    (
                      ground (arith, o.0),
                      ground (arith, o.1),
                      (o.2.0, Holds-same_ring q _ refl refl refl refl o.2.1, o.2.2),
                    )
                    (λ b ne. refl)),
            )
        | inr idle ↦ (
          l ++ a ∷ [],
          wake-Inv inv (record q { release = true }) e refl (idle-not_In inv e (ground arith))
              (ground arith)
              (
                ground (arith, o.0),
                ground (arith, o.1),
                (o.2.0, Holds-same_ring q _ refl refl refl refl o.2.1, o.2.2),
              ),
        )
      ]

  free-Inv :
      (i a : ℕ) (q : MessageQueue)
      → HeldBy i a s.held
      → s.world.heap a ≡ some q
      → q.release ≡ true
      → Inv (let_go s (record (s.world) { heap = update s.world.heap a none }) i a) l
  free-Inv i a q h e gone = record {
    global = IsGlobal-replace a none inv.global (held-not_In inv i a h) (λ q f. cc);
    owned =
        Owned-put s.world.heap a none (λ b. listed b l + holders b (remove i a s.held))
          (ground (
            arith,
            holders-remove i a a s.held h,
            Owned-le (s.world.heap a) (listed a l + holders a s.held) (inv.owned a),
          ))
          (λ b ne. Owned-count _ (ground (arith, holders-remove i a b s.held h)) (inv.owned b));
  }

drop_queue_world :
    (w : World) (a : ℕ) (q : MessageQueue) {w' : World} {ms : List Message}
    → drop_queue w a q ≡ some (w', ms)
    → w' ≡ record w { heap = update w.heap a none }
unfolding drop_queue
drop_queue_world w a q {w'} {ms} p = elim (Option-cases (drain (suc (mq_length q)) q)) [
  | inl fault ↦ absurd (ground (arith, fault))
  | inr f ↦ elim (Option-cases (((f.0).0).next)) [
    | inl null ↦ ground (arith, f.1, null)
    | inr n ↦ absurd (ground (arith, f.1, n.1))
  ]
]

clear-Inv :
    {s : System} {l : List ℕ} (i a : ℕ) {w : World} {ms : List Message}
    → Inv s l
    → HeldBy i a s.held
    → mq_release s.world a ≡ some (w, ms)
    → (l' : List ℕ) × Inv (let_go s w i a) l'
unfolding mq_release
clear-Inv {s} {l} i a {w} {ms} inv h p =
    let f = held_exists inv i a h in
    elim (Bool-cases ((f.0).release)) [
      | inl gone ↦
          let same : w ≡ record (s.world) { heap = update s.world.heap a none } =
            drop_queue_world s.world a f.0 {ms = ms} (ground (arith, f.1)) in
          (l, rw same (free-Inv inv i a f.0 h f.1 gone))
      | inr kept ↦ elim (Option-cases (globalmq_push s.world a)) [
        | inl fault ↦ absurd (ground (arith, f.1, fault))
        | inr g ↦
            let same : g.0 ≡ w = ground (arith, f.1, g.1) in
            (l ++ a ∷ [], give-Inv inv i a h (g.1 ∙ ap some same))
      ]
    ]

-- Every step keeps the invariant.
pub Step-Inv : {s t : System} {l : List ℕ} → Step s t → Inv s l → (l' : List ℕ) × Inv t l'
Step-Inv {l = l} (make i a handle e) inv = (l, make-Inv i a handle inv e)
Step-Inv (send a m q e live p) inv = send-Inv inv m e live p
Step-Inv {l = l} (take i a p) inv = take-Inv l i a inv p
Step-Inv {l = l} (give i a h p) inv = (l ++ a ∷ [], give-Inv inv i a h p)
Step-Inv {l = l} (work i a q q' m h e p) inv = (l, work-Inv inv i a q q' m h e p)
Step-Inv {l = l} (report i a q h e) inv = (l, report-Inv inv i a q e)
Step-Inv {l = l} (park i a q q' h e live p) inv = (l, park-Inv inv i a q q' h e live p)
Step-Inv (mark a q e p) inv = mark-Inv inv a q e p
Step-Inv (clear i a h p) inv = clear-Inv i a inv h p
