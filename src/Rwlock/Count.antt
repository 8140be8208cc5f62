-- ===== src/Rwlock/Count.antt =====
-- skynet-src/rwlock.h: how many threads are where.
use paohuzi_server.Shared.{
  ℕ, zero, suc, ◌+◌, ◌≤◌, ◌≡◌, ◌≢◌, ◌⊎◌, inl, inr, refl, Bool, true, false, some, List, [], ◌∷◌,
  arith, sym, ap, ◌==◌, if◌then◌else◌, get_elem?,
}
use paohuzi_server.Rwlock.{
  Rwlock, Pc, idle, waiting, adding, testing, undoing, reading, spinning, draining, writing, act,
  System, replace, Step, read_lock, write_lock, access, idle_threads, Reach, here, next,
}

-- The threads that `read` counts, those that hold `write`, and those in the sections.
abbrev pub counted : Pc → ℕ
counted testing = 1
counted undoing = 1
counted reading = 1
counted _ = 0

abbrev pub holding : Pc → ℕ
holding draining = 1
holding writing = 1
holding _ = 0

abbrev pub is_reading : Pc → ℕ
is_reading reading = 1
is_reading _ = 0

abbrev pub is_writing : Pc → ℕ
is_writing writing = 1
is_writing _ = 0

abbrev pub sum : (Pc → ℕ) → List Pc → ℕ
sum f [] = 0
sum f (p ∷ l) = f p + sum f l

pub sum_at : (f : Pc → ℕ) (l : List Pc) (i : ℕ) {p : Pc} → get_elem? l i ≡ some p → f p ≤ sum f l
sum_at f [] i e = absurd (ground (arith, e))
sum_at f (q ∷ l) zero {p} e = let same : q ≡ p = cc in omega (arith, ap f same)
sum_at f (q ∷ l) (suc i) e = omega (arith, sum_at f l i e)

pub sum-replace :
    (f : Pc → ℕ) (l : List Pc) (i : ℕ) {p : Pc} (q : Pc)
    → get_elem? l i ≡ some p
    → sum f (replace i q l) + f p ≡ sum f l + f q
sum-replace f [] i q e = absurd (ground (arith, e))
sum-replace f (x ∷ l) zero {p} q e = let same : x ≡ p = cc in omega (arith, ap f same)
sum-replace f (x ∷ l) (suc i) q e = omega (arith, sum-replace f l i q e)

-- Two threads where `f` is 1.
pub sum_two :
    (f : Pc → ℕ) (l : List Pc) (i j : ℕ) {p q : Pc}
    → get_elem? l i ≡ some p
    → get_elem? l j ≡ some q
    → (i ≡ j) ⊎ (f p + f q ≤ sum f l)
sum_two f [] i j e k = absurd (ground (arith, e))
sum_two f (x ∷ l) zero zero e k = inl refl
sum_two f (x ∷ l) zero (suc j) {p} {q} e k =
    let same : x ≡ p = cc in inr (omega (arith, ap f same, sum_at f l j k))
sum_two f (x ∷ l) (suc i) zero {p} {q} e k =
    let same : x ≡ q = cc in inr (omega (arith, ap f same, sum_at f l i e))
sum_two f (x ∷ l) (suc i) (suc j) e k = elim (sum_two f l i j e k) [
  | inl same ↦ inl (ap suc same)
  | inr le ↦ inr (omega arith)
]

-- The lock's memory counts the threads, and there are not both readers and writers.
pub record Inv (s : System) : Type 0 where
  pub reads : s.lock.read ≡ sum counted s.threads
  pub writes : s.lock.write ≡ sum holding s.threads
  pub one : s.lock.write ≤ 1
  pub apart : (sum is_reading s.threads ≡ 0) ⊎ (sum is_writing s.threads ≡ 0)

pub is_reading-le : (l : List Pc) → sum is_reading l ≤ sum counted l
is_reading-le [] = omega arith
is_reading-le (p ∷ l) = omega (arith, one p, is_reading-le l)
  where
    one : (p : Pc) → is_reading p ≤ counted p
    one testing = omega arith
    one undoing = omega arith
    one reading = omega arith
    one _ = omega arith

pub is_writing-le : (l : List Pc) → sum is_writing l ≤ sum holding l
is_writing-le [] = omega arith
is_writing-le (p ∷ l) = omega (arith, one p, is_writing-le l)
  where
    one : (p : Pc) → is_writing p ≤ holding p
    one draining = omega arith
    one writing = omega arith
    one _ = omega arith

-- What an access changes in the counts.
record Acts (p : Pc) (m : Rwlock) (q : Pc) (m' : Rwlock) : Type 0 where
  reads : m'.read + counted p ≡ m.read + counted q
  writes : m'.write + holding p ≡ m.write + holding q
  one : m'.write ≤ 1
  enters_read : (is_reading q ≡ 0) ⊎ ((m.write ≡ 0) × (is_writing q ≡ 0))
  enters_write : (is_writing q ≡ 0) ⊎ ((m.read ≡ 0) × (is_reading q ≡ 0))

module _ (m : Rwlock) (w : m.write ≤ 1) where
  Acts-waiting : (b : Bool) → Acts waiting m (if b then adding else waiting) m
  Acts-waiting true = record {
    reads = refl;
    writes = refl;
    one = w;
    enters_read = inl refl;
    enters_write = inl refl;
  }
  Acts-waiting false = record {
    reads = refl;
    writes = refl;
    one = w;
    enters_read = inl refl;
    enters_write = inl refl;
  }

  Acts-testing :
      (b : Bool) → (b ≡ true → m.write ≡ 0) → Acts testing m (if b then reading else undoing) m
  Acts-testing true free = record {
    reads = refl;
    writes = refl;
    one = w;
    enters_read = inr (free refl, refl);
    enters_write = inl refl;
  }
  Acts-testing false free = record {
    reads = refl;
    writes = refl;
    one = w;
    enters_read = inl refl;
    enters_write = inl refl;
  }

  Acts-spinning :
      (b : Bool)
      → (b ≡ true → m.write ≡ 0)
      → (b ≡ false → m.write ≢ 0)
      → Acts spinning m (if b then draining else spinning) (record m { write = 1 })
  Acts-spinning true free taken = record {
    reads = refl;
    writes = omega (arith, free refl);
    one = omega arith;
    enters_read = inl refl;
    enters_write = inl refl;
  }
  Acts-spinning false free taken = record {
    reads = refl;
    writes = ground (arith, taken refl);
    one = omega arith;
    enters_read = inl refl;
    enters_write = inl refl;
  }

  Acts-draining :
      (b : Bool) → (b ≡ true → m.read ≡ 0) → Acts draining m (if b then writing else draining) m
  Acts-draining true free = record {
    reads = refl;
    writes = refl;
    one = w;
    enters_read = inl refl;
    enters_write = inr (free refl, refl);
  }
  Acts-draining false free = record {
    reads = refl;
    writes = refl;
    one = w;
    enters_read = inl refl;
    enters_write = inl refl;
  }

act_lem :
    (p : Pc) (m : Rwlock)
    → m.write ≤ 1
    → counted p ≤ m.read
    → holding p ≤ m.write
    → Acts p m (act p m).0 (act p m).1
unfolding act
act_lem idle m w r h = record {
  reads = refl;
  writes = refl;
  one = w;
  enters_read = inl refl;
  enters_write = inl refl;
}
act_lem waiting m w r h = Acts-waiting m w (m.write == 0)
act_lem adding m w r h = record {
  reads = omega arith;
  writes = refl;
  one = w;
  enters_read = inl refl;
  enters_write = inl refl;
}
act_lem testing m w r h = Acts-testing m w (m.write == 0) (λ t. ground (arith, t))
act_lem undoing m w r h = record {
  reads = omega arith;
  writes = refl;
  one = w;
  enters_read = inl refl;
  enters_write = inl refl;
}
act_lem reading m w r h = record {
  reads = omega arith;
  writes = refl;
  one = w;
  enters_read = inl refl;
  enters_write = inl refl;
}
act_lem spinning m w r h =
    Acts-spinning m w (m.write == 0) (λ t. ground (arith, t)) (λ t. ground (arith, t))
act_lem draining m w r h = Acts-draining m w (m.read == 0) (λ t. ground (arith, t))
act_lem writing m w r h = record {
  reads = refl;
  writes = omega arith;
  one = omega arith;
  enters_read = inl refl;
  enters_write = inl refl;
}

-- The invariant is kept by a thread that moves from `p` to `q` with these changes.
moved-Inv :
    (s : System) (i : ℕ) (p q : Pc) (m' : Rwlock)
    → Inv s
    → get_elem? s.threads i ≡ some p
    → Acts p s.lock q m'
    → Inv (record { lock = m'; threads = replace i q s.threads })
moved-Inv s i p q m' inv e a = record {
  reads = omega (arith, a.reads, inv.reads, sum-replace counted s.threads i q e);
  writes = omega (arith, a.writes, inv.writes, sum-replace holding s.threads i q e);
  one = a.one;
  apart = elim a.enters_read [
    | inr free ↦ inr (
        omega (
          arith,
          free.0,
          free.1,
          inv.writes,
          is_writing-le s.threads,
          sum-replace is_writing s.threads i q e,
        ))
    | inl r ↦ elim a.enters_write [
      | inr free ↦ inl (
          omega (
            arith,
            free.0,
            free.1,
            inv.reads,
            is_reading-le s.threads,
            sum-replace is_reading s.threads i q e,
          ))
      | inl w ↦ elim inv.apart [
        | inl z ↦ inl (omega (arith, z, r, sum-replace is_reading s.threads i q e))
        | inr z ↦ inr (omega (arith, z, w, sum-replace is_writing s.threads i q e))
      ]
    ]
  ];
}

Step-Inv : {s t : System} → Inv s → Step s t → Inv t
Step-Inv {s} inv (read_lock i e) = moved-Inv s i idle waiting s.lock inv e (record {
  reads = refl;
  writes = refl;
  one = inv.one;
  enters_read = inl refl;
  enters_write = inl refl;
})
Step-Inv {s} inv (write_lock i e) = moved-Inv s i idle spinning s.lock inv e (record {
  reads = refl;
  writes = refl;
  one = inv.one;
  enters_read = inl refl;
  enters_write = inl refl;
})
Step-Inv {s} inv (access i p e) = moved-Inv s i p (act p s.lock).0 (act p s.lock).1 inv e (
    act_lem p s.lock inv.one (omega (arith, inv.reads, sum_at counted s.threads i e))
      (omega (arith, inv.writes, sum_at holding s.threads i e)))

sum_idle : (f : Pc → ℕ) (n : ℕ) → f idle ≡ 0 → sum f (idle_threads n) ≡ 0
sum_idle f zero z = refl
sum_idle f (suc n) z = omega (arith, z, sum_idle f n z)

pub Reach-Inv : {n : ℕ} {s : System} → Reach n s → Inv s
Reach-Inv {n} here = record {
  reads = sym (sum_idle counted n refl);
  writes = sym (sum_idle holding n refl);
  one = omega arith;
  apart = inl (sum_idle is_reading n refl);
}
Reach-Inv (next r st) = Step-Inv (Reach-Inv r) st
