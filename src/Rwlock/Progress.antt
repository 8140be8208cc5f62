-- ===== src/Rwlock/Progress.antt =====
-- skynet-src/rwlock.h: the threads do not block each other for ever.
use paohuzi_server.Shared.{
  ℕ, suc, ◌<◌, ◌≡◌, ◌≢◌, refl, Bool, true, false, some, List, [], ◌∷◌, arith, ap, ◌∙◌, get_elem?,
  ◌==◌, if◌then◌else◌, ℕ_discrete,
}
use paohuzi_server.Rwlock.{
  Rwlock, Pc, idle, waiting, adding, testing, undoing, reading, spinning, draining, writing, act,
  System, Reach,
}
use paohuzi_server.Rwlock.Count.{counted, holding, sum, sum_at, Reach-Inv}

-- A thread on its way into the lock
abbrev pub IsEntering : Pc → Type 0
IsEntering idle = ⊥
IsEntering reading = ⊥
IsEntering writing = ⊥
IsEntering _ = Unit

-- A thread that can move on, whichever test it makes.
abbrev free_now : Pc → Rwlock → ℕ
free_now adding m = 1
free_now testing m = 1
free_now undoing m = 1
free_now draining m = if m.read == 0 then 1 else 0
free_now waiting m = if m.write == 0 then 1 else 0
free_now spinning m = if m.write == 0 then 1 else 0
free_now _ m = 0

sum_pos :
    (f : Pc → ℕ) (l : List Pc)
    → 0 < sum f l
    → (i : ℕ) × (p : Pc) × (get_elem? l i ≡ some p) × (0 < f p)
sum_pos f [] h = absurd (omega arith)
sum_pos f (x ∷ l) h = elim (ℕ_discrete (f x) 0) [
  | no ne ↦ (0, x, refl, omega arith)
  | yes z ↦ let (i, p, e, pos) = sum_pos f l (omega arith) in (suc i, p, e, pos)
]

test_moves : (b : Bool) (p q : Pc) → q ≢ p → 0 < (if b then 1 else 0) → (if b then q else p) ≢ p
test_moves true p q ne h = ne
test_moves false p q ne h = absurd (omega arith)

testing_moves : (b : Bool) → (if b then reading else undoing) ≢ testing
testing_moves true = λ e. cc
testing_moves false = λ e. cc

moves : (p : Pc) (m : Rwlock) → 0 < free_now p m → (act p m).0 ≢ p
unfolding act
moves idle m h = absurd (omega arith)
moves waiting m h = test_moves (m.write == 0) waiting adding (λ e. cc) h
moves adding m h = λ e. cc
moves testing m h = testing_moves (m.write == 0)
moves undoing m h = λ e. cc
moves reading m h = absurd (omega arith)
moves spinning m h = test_moves (m.write == 0) spinning draining (λ e. cc) h
moves draining m h = test_moves (m.read == 0) draining writing (λ e. cc) h
moves writing m h = absurd (omega arith)

-- With nobody holding `write`, each thread on its way is free; a thread in the counts is on its way,
-- or reads.
entering_free :
    (p : Pc) (m : Rwlock) → IsEntering p → m.write ≡ 0 → holding p ≡ 0 → 0 < free_now p m
entering_free idle m on w h = absurd on
entering_free waiting m on w h = ground (arith, w)
entering_free adding m on w h = omega arith
entering_free testing m on w h = omega arith
entering_free undoing m on w h = omega arith
entering_free reading m on w h = absurd on
entering_free spinning m on w h = ground (arith, w)
entering_free draining m on w h = absurd (omega (arith, h))
entering_free writing m on w h = absurd on

counted_free : (p : Pc) (m : Rwlock) → 0 < counted p → p ≢ reading → 0 < free_now p m
counted_free testing m c ne = omega arith
counted_free undoing m c ne = omega arith
counted_free reading m c ne = absurd (ne refl)
counted_free idle m c ne = absurd (omega arith)
counted_free waiting m c ne = absurd (omega arith)
counted_free adding m c ne = absurd (omega arith)
counted_free spinning m c ne = absurd (omega arith)
counted_free draining m c ne = absurd (omega arith)
counted_free writing m c ne = absurd (omega arith)

holding_free : (p : Pc) (m : Rwlock) → 0 < holding p → p ≢ writing → m.read ≡ 0 → 0 < free_now p m
holding_free draining m c ne r = ground (arith, r)
holding_free writing m c ne r = absurd (ne refl)
holding_free idle m c ne r = absurd (omega arith)
holding_free waiting m c ne r = absurd (omega arith)
holding_free adding m c ne r = absurd (omega arith)
holding_free testing m c ne r = absurd (omega arith)
holding_free undoing m c ne r = absurd (omega arith)
holding_free reading m c ne r = absurd (omega arith)
holding_free spinning m c ne r = absurd (omega arith)

-- No deadlock: in any state that the threads can reach, if a thread is on its way into the lock and no
-- thread is inside, then there is a thread on its way whose next access takes it further or, for a
-- reader that met a writer, back.
pub progress :
    {n : ℕ} {s : System} (i : ℕ) (p : Pc)
    → Reach n s
    → get_elem? s.threads i ≡ some p
    → IsEntering p
    → ((j : ℕ) → get_elem? s.threads j ≢ some reading)
    → ((j : ℕ) → get_elem? s.threads j ≢ some writing)
    → (j : ℕ) × (q : Pc) × (get_elem? s.threads j ≡ some q) × ((act q s.lock).0 ≢ q)
progress {n} {s} i p r e on no_reader no_writer =
    let inv = Reach-Inv r in
    elim (ℕ_discrete s.lock.write 0) [
      | yes w ↦
          let outside : holding p ≡ 0 =
            omega (arith, w, inv.writes, sum_at holding s.threads i e) in
          (i, p, e, moves p s.lock (entering_free p s.lock on w outside))
      | no nw ↦ elim (ℕ_discrete s.lock.read 0) [
        | yes z ↦
            let (j, q, k, pos) = sum_pos holding s.threads (omega (arith, inv.writes)) in
            let ne : q ≢ writing = λ same. no_writer j (k ∙ ap some same) in
            (j, q, k, moves q s.lock (holding_free q s.lock pos ne z))
        | no nz ↦
            let (j, q, k, pos) = sum_pos counted s.threads (omega (arith, inv.reads)) in
            let ne : q ≢ reading = λ same. no_reader j (k ∙ ap some same) in
            (j, q, k, moves q s.lock (counted_free q s.lock pos ne))
      ]
    ]
