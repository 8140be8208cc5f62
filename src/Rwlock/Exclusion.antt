-- ===== src/Rwlock/Exclusion.antt =====
-- skynet-src/rwlock.h: readers and a writer exclude each other.
use paohuzi_server.Shared.{ℕ, ◌≡◌, inl, inr, some, arith, get_elem?}
use paohuzi_server.Rwlock.{reading, writing, System, Reach}
use paohuzi_server.Rwlock.Count.{is_reading, is_writing, holding, sum_at, sum_two, Reach-Inv}

-- While a thread writes under the lock, no thread reads under it, and no other thread writes, in any
-- state that the threads can reach.
pub exclusion :
    {n : ℕ} {s : System} (i : ℕ)
    → Reach n s
    → get_elem? s.threads i ≡ some writing
    → (j : ℕ)
    → (¬ (get_elem? s.threads j ≡ some reading)) × (get_elem? s.threads j ≡ some writing → i ≡ j)
exclusion {n} {s} i r e j =
    let inv = Reach-Inv r in
    (
      λ k. elim inv.apart [
        | inl z ↦ absurd (omega (arith, z, sum_at is_reading s.threads j k))
        | inr z ↦ absurd (omega (arith, z, sum_at is_writing s.threads i e))
      ],
      λ k. elim (sum_two holding s.threads i j e k) [
        | inl same ↦ same
        | inr two ↦ absurd (omega (arith, two, inv.one, inv.writes))
      ],
    )
