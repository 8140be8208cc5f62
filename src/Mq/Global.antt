-- ===== src/Mq/Global.antt =====
-- skynet-src/skynet_mq.c: the global queue, linked through the message queues, is a FIFO of
-- addresses.
use paohuzi_server.Shared.{
  ℕ, ◌≡◌, refl, Option, none, some, List, [], ◌∷◌, ◌++◌, arith, inl, inr, ◌⊎◌, sym, update, ==_refl,
  update_ne, update_same, subst, ℕ_discrete, ◌∙◌,
}
use paohuzi_server.Mq.{
  MessageQueue, World, put, link_last, append_global, globalmq_push, tail_after, pop_head, pop_from,
  globalmq_pop,
}

abbrev pub In : ℕ → List ℕ → Type 0
In a [] = ⊥
In a (x ∷ l) = (a ≡ x) ⊎ In a l

abbrev pub Distinct : List ℕ → Type 0
Distinct [] = Unit
Distinct (x ∷ l) = (¬ In x l) × Distinct l

abbrev pub last? : List ℕ → Option ℕ
last? [] = none
last? (x ∷ []) = some x
last? (x ∷ y ∷ l) = last? (y ∷ l)

-- The `next` fields lead from the pointer through the addresses `l` to null.
abbrev pub Linked : (ℕ → Option MessageQueue) → Option ℕ → List ℕ → Type 0
Linked heap p [] = p ≡ none
Linked heap p (a ∷ l) = (p ≡ some a) × (q : MessageQueue) × (heap a ≡ some q) × Linked heap q.next l

-- The global queue is the list `l`: each address once, and a queue that is not on it has a null
-- `next`.
pub record IsGlobal (w : World) (l : List ℕ) : Type 0 where
  pub links : Linked w.heap w.head l
  pub last : w.tail ≡ last? l
  pub distinct : Distinct l
  pub idle : (a : ℕ) (q : MessageQueue) → w.heap a ≡ some q → ¬ In a l → q.next ≡ none

-- Nothing but `next` fields changed.
abbrev pub SameButNext : Option MessageQueue → Option MessageQueue → Type 0
SameButNext none none = Unit
SameButNext none (some q') = ⊥
SameButNext (some q) none = ⊥
SameButNext (some q) (some q') = q' ≡ record q { next = q'.next }

abbrev pub SameRings : (ℕ → Option MessageQueue) → (ℕ → Option MessageQueue) → Type 0
SameRings heap heap' = (a : ℕ) → SameButNext (heap a) (heap' a)

last?-In : (l : List ℕ) {t : ℕ} → last? l ≡ some t → In t l
last?-In [] e = cc
last?-In (x ∷ []) e = inl (ground arith)
last?-In (x ∷ y ∷ l) e = inr (last?-In (y ∷ l) e)

last?-append : (l : List ℕ) (a : ℕ) → last? (l ++ a ∷ []) ≡ some a
last?-append [] a = refl
last?-append (x ∷ []) a = refl
last?-append (x ∷ y ∷ l) a = last?-append (y ∷ l) a

last?-cons : (x : ℕ) (l : List ℕ) → (t : ℕ) × (last? (x ∷ l) ≡ some t)
last?-cons x [] = (x, refl)
last?-cons x (y ∷ l) = last?-cons y l

pub In-append : (b a : ℕ) (l : List ℕ) → In b (l ++ a ∷ []) → In b l ⊎ (b ≡ a)
In-append b a [] (inl e) = inr e
In-append b a [] (inr h) = elim h [ ]
In-append b a (x ∷ l) (inl e) = inl (inl e)
In-append b a (x ∷ l) (inr h) = elim (In-append b a l h) [ inl m ↦ inl (inr m) | inr e ↦ inr e ]

pub In-append_left : (b a : ℕ) (l : List ℕ) → In b l → In b (l ++ a ∷ [])
In-append_left b a [] h = elim h [ ]
In-append_left b a (x ∷ l) (inl e) = inl e
In-append_left b a (x ∷ l) (inr h) = inr (In-append_left b a l h)

pub In-append_last : (a : ℕ) (l : List ℕ) → In a (l ++ a ∷ [])
In-append_last a [] = inl refl
In-append_last a (x ∷ l) = inr (In-append_last a l)

Distinct-append : (l : List ℕ) (a : ℕ) → Distinct l → (¬ In a l) → Distinct (l ++ a ∷ [])
Distinct-append [] a d h = (λ x. x, tt)
Distinct-append (x ∷ l) a d h = (
  λ m. elim (In-append x a l m) [ inl old ↦ d.0 old | inr e ↦ h (inl (sym e)) ],
  Distinct-append l a d.1 (λ m. h (inr m)),
)

-- A change at an address that is not on the list keeps the links.
pub Linked-update :
    (heap : ℕ → Option MessageQueue) (p : Option ℕ) (l : List ℕ) (a : ℕ) (v : Option MessageQueue)
    → Linked heap p l
    → (¬ In a l)
    → Linked (update heap a v) p l
Linked-update heap p [] a v k h = k
Linked-update heap p (x ∷ l) a v k h = (
  k.0,
  k.1,
  update_ne heap a x v (λ e. h (inl e)) ∙ k.2,
  Linked-update heap (k.1).next l a v k.3 (λ m. h (inr m)),
)

-- The tail of the list gets `a` for its `next`.
Linked-extend :
    (heap : ℕ → Option MessageQueue) (p : Option ℕ) (l : List ℕ) (a t : ℕ) (q last : MessageQueue)
    → Linked heap p l
    → Distinct l
    → last? l ≡ some t
    → heap t ≡ some last
    → heap a ≡ some q
    → q.next ≡ none
    → (¬ In a l)
    → Linked (update heap t (some (record last { next = some a }))) p (l ++ a ∷ [])
Linked-extend heap p [] a t q last k d e ht ha n h = cc
Linked-extend heap p (x ∷ []) a t q last k d e ht ha n h = (
  k.0,
  record last { next = some a },
  ground arith,
  (refl, q, update_ne heap t a _ (λ u. h (inl (cc))) ∙ ha, n),
)
Linked-extend heap p (x ∷ y ∷ l) a t q last k d e ht ha n h = (
  k.0,
  k.1,
  update_ne heap t x _ (λ u. d.0 (subst (λ k. In k (y ∷ l)) u (last?-In (y ∷ l) e))) ∙ k.2,
  Linked-extend heap (k.1).next (y ∷ l) a t q last k.3 d.1 e ht ha n (λ m. h (inr m)),
)

Linked-find :
    (heap : ℕ → Option MessageQueue) (p : Option ℕ) (l : List ℕ) (a : ℕ)
    → Linked heap p l
    → In a l
    → (q : MessageQueue) × (heap a ≡ some q)
Linked-find heap p [] a k m = elim m [ ]
Linked-find heap p (x ∷ l) a k (inl e) = (k.1, rw e k.2)
Linked-find heap p (x ∷ l) a k (inr m) = Linked-find heap (k.1).next l a k.3 m

SameButNext-refl : (o : Option MessageQueue) → SameButNext o o
SameButNext-refl none = tt
SameButNext-refl (some q) = refl

SameRings-update :
    (heap : ℕ → Option MessageQueue) (t : ℕ) (last : MessageQueue) (p : Option ℕ)
    → heap t ≡ some last
    → SameRings heap (update heap t (some (record last { next = p })))
SameRings-update heap t last p h a = elim (ℕ_discrete t a) [
  | yes same ↦ rw (← same, h, ==_refl t) refl
  | no other ↦
      rw (update_ne heap t a (some (record last { next = p })) other) (SameButNext-refl (heap a))
]

-- A queue that exists and is not on the list is appended to it; no ring changes.
pub globalmq_push_lem :
    (l : List ℕ) {w : World} {a : ℕ} {q : MessageQueue}
    → IsGlobal w l
    → w.heap a ≡ some q
    → (¬ In a l)
    → (w' : World) × (globalmq_push w a ≡ some w')
      × IsGlobal w' (l ++ a ∷ [])
      × SameRings w.heap w'.heap
unfolding globalmq_push append_global link_last
globalmq_push_lem [] {w} {a} {q} g ha h =
    let n : q.next ≡ none = g.idle a q ha h in
    (
      record w { head = some a; tail = some a },
      ground (arith, g.last),
      record {
        links = (refl, q, ha, n);
        last = refl;
        distinct = (h, tt);
        idle = λ b qb hb m. g.idle b qb hb (λ f. elim f [ ]);
      },
      λ b. SameButNext-refl (w.heap b),
    )
globalmq_push_lem (x ∷ l) {w} {a} {q} g ha h =
    let n : q.next ≡ none = g.idle a q ha h in
    let e : last? (x ∷ l) ≡ some (last?-cons x l).0 = (last?-cons x l).1 in
    let t : ℕ = (last?-cons x l).0 in
    let f : (q : MessageQueue) × (w.heap t ≡ some q) =
      Linked-find w.heap w.head (x ∷ l) t g.links (last?-In (x ∷ l) e) in
    (
      record w { heap = update w.heap t (some (record (f.0) { next = some a })); tail = some a },
      ground (arith, g.last, f.1),
      record {
        links = Linked-extend w.heap w.head (x ∷ l) a t q f.0 g.links g.distinct e f.1 ha n h;
        last = sym (last?-append (x ∷ l) a);
        distinct = Distinct-append (x ∷ l) a g.distinct h;
        idle = λ b qb hb m.
            g.idle b qb
              (sym (
                  update_ne w.heap t b _ (λ u. m (
                    In-append_left b a (x ∷ l) (subst (λ k. In k (x ∷ l)) u (last?-In (x ∷ l) e)))))
                ∙ hb)
              (λ k. m (In-append_left b a (x ∷ l) k));
      },
      SameRings-update w.heap t f.0 (some a) f.1,
    )

tail_after_lem :
    (heap : ℕ → Option MessageQueue) (a : ℕ) (l : List ℕ) (p : Option ℕ)
    → Linked heap p l
    → tail_after p (last? (a ∷ l)) a ≡ some (last? l)
unfolding tail_after
tail_after_lem heap a [] p k = ground (arith, k)
tail_after_lem heap a (x ∷ l) p k = ground (arith, k.0)

-- The oldest address comes off, with a null `next`; no ring changes.
pub globalmq_pop_lem :
    {w : World} {a : ℕ} {l : List ℕ}
    → IsGlobal w (a ∷ l)
    → (w' : World) × (globalmq_pop w ≡ some (w', some a)) × IsGlobal w' l × SameRings w.heap w'.heap
unfolding globalmq_pop pop_from pop_head
globalmq_pop_lem {w} {a} {l} g =
    let q : MessageQueue = g.links.1 in
    (
      record w {
        heap = update w.heap a (some (record q { next = none }));
        head = q.next;
        tail = last? l;
      },
      ground (arith, g.links.0, g.links.2, g.last, tail_after_lem w.heap a l q.next g.links.3),
      record {
        links = Linked-update w.heap q.next l a _ g.links.3 g.distinct.0;
        last = refl;
        distinct = g.distinct.1;
        idle = λ b qb hb m. elim (ℕ_discrete a b) [
          | yes same ↦ ground arith
          | no other ↦ ground (
            arith,
            g.idle b qb (sym (update_ne w.heap a b _ other) ∙ hb)
                (λ k. elim k [ inl e ↦ other (sym e) | inr r ↦ m r ]),
          )
        ];
      },
      SameRings-update w.heap a q none g.links.2,
    )

-- An empty global queue gives nothing and stays.
pub globalmq_pop_empty : {w : World} → IsGlobal w [] → globalmq_pop w ≡ some (w, none)
unfolding globalmq_pop pop_from
globalmq_pop_empty g = ground (arith, g.links)

Linked-same_next :
    (heap : ℕ → Option MessageQueue) (p : Option ℕ) (l : List ℕ) (a : ℕ) (q q' : MessageQueue)
    → Linked heap p l
    → heap a ≡ some q
    → q'.next ≡ q.next
    → Linked (update heap a (some q')) p l
Linked-same_next heap p [] a q q' k h n = k
Linked-same_next heap p (x ∷ l) a q q' k h n = elim (ℕ_discrete a x) [
  | yes same ↦
      let e : q'.next ≡ (k.1).next = ground (arith, k.2) in
      (k.0, q', ground arith, rw e (Linked-same_next heap (k.1).next l a q q' k.3 h n))
  | no other ↦ (
    k.0,
    k.1,
    update_ne heap a x _ other ∙ k.2,
    Linked-same_next heap (k.1).next l a q q' k.3 h n,
  )
]

-- A change of a queue that keeps its `next` keeps the global queue.
pub IsGlobal-put :
    {w : World} {l : List ℕ} {a : ℕ} {q : MessageQueue} (q' : MessageQueue)
    → IsGlobal w l
    → w.heap a ≡ some q
    → q'.next ≡ q.next
    → IsGlobal (put w a q') l
IsGlobal-put {w} {l} {a} {q} q' g h n = record {
  links = Linked-same_next w.heap w.head l a q q' g.links h n;
  last = g.last;
  distinct = g.distinct;
  idle = λ b qb hb m. elim (ℕ_discrete a b) [
    | yes same ↦ ground (arith, g.idle a q h (subst (λ k. ¬ In k l) (sym same) m))
    | no other ↦ g.idle b qb (sym (update_ne w.heap a b _ other) ∙ hb) m
  ];
}

-- An address with no queue is not on the list.
pub fresh-not_In : {w : World} {l : List ℕ} {a : ℕ} → IsGlobal w l → w.heap a ≡ none → ¬ In a l
fresh-not_In {w} {l} {a} g h m = let f = Linked-find w.heap w.head l a g.links m in cc (f.1)

-- A new queue at a free address, or a freed one that is not on the list.
pub IsGlobal-replace :
    {w : World} {l : List ℕ} (a : ℕ) (o : Option MessageQueue)
    → IsGlobal w l
    → (¬ In a l)
    → ((q : MessageQueue) → o ≡ some q → q.next ≡ none)
    → IsGlobal (record w { heap = update w.heap a o }) l
IsGlobal-replace {w} {l} a o g h n = record {
  links = Linked-update w.heap w.head l a o g.links h;
  last = g.last;
  distinct = g.distinct;
  idle = λ b qb hb m. elim (ℕ_discrete a b) [
    | yes same ↦ n qb (sym (update_same w.heap a b o same) ∙ hb)
    | no other ↦ g.idle b qb (sym (update_ne w.heap a b o other) ∙ hb) m
  ];
}
