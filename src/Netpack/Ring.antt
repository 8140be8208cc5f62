-- ===== src/Netpack/Ring.antt =====
-- lualib-src/lua-netpack.c: the queue of whole packages is a FIFO that grows by 1024 when it is full.
use paohuzi_server.Shared.{
  ℕ, zero, suc, ◌+◌, ◌-◌, ◌%◌, ◌^◌, ◌<◌, ◌≡◌, refl, ◌≢◌, Option, none, some, List, [], ◌∷◌, ◌++◌,
  arith, ltb, leb, if◌then◌else◌, update, length, get_elem?, length-append, get_elem?-append_left,
  get_elem?-append_last, dec_lt, ap, ℕ_discrete,
}
use native.Mathlib.Nat.{mod-eq_of_lt, mod-eq-sub-mod}
use paohuzi_server.Netpack.{
  Netpack, Queue, queue_size, get_queue, copy_packs, expand_packs, push_data, pop,
}

-- How many packages are queued.
abbrev pub queued : Queue → ℕ
queued q = if leb q.head q.tail then q.tail - q.head else q.tail + q.cap - q.head

abbrev pub place : Queue → ℕ → ℕ
place q i = if ltb (q.head + i) q.cap then q.head + i else q.head + i - q.cap

-- The ring is within its bounds and holds the packages `ps`, oldest first.
pub record HasPacks (q : Queue) (ps : List Netpack) : Type 0 where
  pub head_in : q.head < q.cap
  pub tail_in : q.tail < q.cap
  pub count : queued q ≡ length ps
  pub cells : (i : ℕ) → i < length ps → q.queue (place q i) ≡ get_elem? ps i

place-mod : (q : Queue) (i : ℕ) → q.head < q.cap → i < q.cap → (q.head + i) % q.cap ≡ place q i
place-mod q i h k = elim (dec_lt (q.head + i) q.cap) [
  | yes below ↦ ground (arith, mod-eq_of_lt {n = q.head + i} {m = q.cap} below)
  | no past ↦ ground (
    arith,
    mod-eq-sub-mod {n = q.head + i} {m = q.cap} (omega arith),
    mod-eq_of_lt {n = q.head + i - q.cap} {m = q.cap} (omega arith),
  )
]

copy_packs_lem : (q : Queue) (n i : ℕ) → i < n → copy_packs q n i ≡ q.queue ((q.head + i) % q.cap)
unfolding copy_packs
copy_packs_lem q zero i h = elim h [ ]
copy_packs_lem q (suc n) i h = elim (ℕ_discrete n i) [
  | yes e ↦ ground (arith, ap (λ k. q.queue ((q.head + k) % q.cap)) e)
  | no ne ↦ ground (arith, copy_packs_lem q n i (omega arith))
]

pub get_queue-HasPacks : HasPacks (get_queue none) []
unfolding get_queue
get_queue-HasPacks = record {
  head_in = omega arith;
  tail_in = omega arith;
  count = refl;
  cells = λ i lt. absurd (omega arith);
}

-- The packages do not depend on the packages cut short.
pub HasPacks-hash :
    {q q' : Queue} {ps : List Netpack}
    → q'.cap ≡ q.cap
    → q'.head ≡ q.head
    → q'.tail ≡ q.tail
    → q'.queue ≡ q.queue
    → HasPacks q ps
    → HasPacks q' ps
HasPacks-hash a b c d h = record {
  head_in = ground (arith, h.head_in);
  tail_in = ground (arith, h.tail_in);
  count = ground (arith, h.count);
  cells = λ i lt. ground (arith, h.cells i lt);
}

module _ (q : Queue) {ps : List Netpack} (np : Netpack) (h : HasPacks q ps) where
  abbrev written : Queue
  written = record q {
    queue = update q.queue q.tail (some np);
    tail = if leb q.cap (q.tail + 1) then q.tail + 1 - q.cap else q.tail + 1;
  }

  abbrev grown : Queue
  grown = record {
    cap = q.cap + queue_size;
    head = 0;
    tail = q.cap;
    hash = q.hash;
    queue = copy_packs written q.cap;
  }

  length_bound : length ps < q.cap
  length_bound = ground (arith, h.count)

  written_cell :
      (i : ℕ)
      → i < length (ps ++ np ∷ [])
      → written.queue (place written i) ≡ get_elem? (ps ++ np ∷ []) i
  written_cell i lt = elim (dec_lt i (length ps)) [
    | yes old ↦
        ground
          (arith, h.count, length_bound, h.cells i old, get_elem?-append_left ps (np ∷ []) i old)
    | no last ↦
        let e : i ≡ length ps = omega (arith, length-append ps (np ∷ [])) in
        ground (arith, h.count, length_bound, get_elem?-append_last ps np i e)
  ]

  full_count : q.head ≡ written.tail → q.cap ≡ length (ps ++ np ∷ [])
  full_count e = ground (arith, h.count, length-append ps (np ∷ []))

  grown_cell :
      (i : ℕ)
      → q.head ≡ written.tail
      → i < length (ps ++ np ∷ [])
      → grown.queue (place grown i) ≡ get_elem? (ps ++ np ∷ []) i
  grown_cell i e lt =
      ground (
        arith,
        copy_packs_lem written q.cap i,
        place-mod written i,
        full_count e,
        written_cell i lt,
      )

  written-HasPacks : q.head ≢ written.tail → HasPacks written (ps ++ np ∷ [])
  written-HasPacks ne = record {
    head_in = ground arith;
    tail_in = ground arith;
    count = ground (arith, h.count, length-append ps (np ∷ []));
    cells = written_cell;
  }

  grown-HasPacks : q.head ≡ written.tail → HasPacks grown (ps ++ np ∷ [])
  grown-HasPacks e = record {
    head_in = ground (arith, full_count e, length-append ps (np ∷ []));
    tail_in = ground arith;
    count = ground (arith, full_count e);
    cells = λ i lt. grown_cell i e lt;
  }

-- `push_data` queues a package behind the others, and leaves the packages cut short alone.
pub push_data_lem :
    (o : Option Queue) {ps : List Netpack} (fd : ℕ) (buffer : List ℕ) (size : ℕ)
    → HasPacks (get_queue o) ps
    → length ps + 1 + queue_size < 2 ^ 31
    → (q' : Queue) × (push_data o fd buffer size ≡ some q')
      × HasPacks q' (ps ++ record { id = fd; size = size; buffer = buffer } ∷ [])
      × (q'.hash ≡ (get_queue o).hash)
unfolding push_data expand_packs
push_data_lem o {ps} fd buffer size h small =
    let q : Queue = get_queue o in
    let np : Netpack = record { id = fd; size = size; buffer = buffer } in
    elim (ℕ_discrete q.head (written q np h).tail) [
      | yes full ↦ (
        grown q np h,
        ground (arith, h.tail_in, full_count q np h full, length-append ps (np ∷ [])),
        grown-HasPacks q np h full,
        refl,
      )
      | no room ↦ (written q np h, ground (arith, h.tail_in), written-HasPacks q np h room, refl)
    ]

-- `lpop` gives the oldest package.
pub pop_lem :
    {q : Queue} {np : Netpack} {ps : List Netpack}
    → HasPacks q (np ∷ ps)
    → (q' : Queue) × (pop (some q) ≡ some (some q', some np)) × HasPacks q' ps × (q'.hash ≡ q.hash)
unfolding pop
pop_lem {q} {np} {ps} h = (
  record q { head = if leb q.cap (q.head + 1) then 0 else q.head + 1 },
  ground (arith, h.count, h.cells 0, h.head_in),
  record {
    head_in = ground (arith, h.head_in);
    tail_in = h.tail_in;
    count = ground (arith, h.count, h.head_in, h.tail_in);
    cells = λ i lt. ground (arith, h.count, h.cells (suc i), h.head_in, h.tail_in);
  },
  refl,
)
