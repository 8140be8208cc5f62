-- ===== src/Rwlock.antt =====
-- skynet-src/rwlock.h, without pthread: threads that read and write under the lock, one access to the
-- lock's memory at a time, in any order. The accesses are taken to be sequentially consistent.
pub mod Count
pub mod Exclusion
pub mod Progress
mod Tests
use paohuzi_server.Shared.{
  ℕ, zero, suc, ◌+◌, ◌-◌, ◌≡◌, ◌<◌, Bool, true, false, Option, none, some, List, [], ◌∷◌, ◌==◌,
  if◌then◌else◌, get_elem?,
}

-- `struct rwlock`
pub record Rwlock : Type 0 where
  pub write : ℕ
  pub read : ℕ

-- `rwlock_init`
abbrev pub rwlock_init : Rwlock
rwlock_init = record { write = 0; read = 0 }

-- Where a thread is: outside, before an access in `rwlock_rlock` (the inner loop, the addition, the
-- second test, the subtraction), reading, before an access in `rwlock_wlock`, or writing.
pub data Pc : Type 0 where
  idle : Pc
  waiting : Pc
  adding : Pc
  testing : Pc
  undoing : Pc
  reading : Pc
  spinning : Pc
  draining : Pc
  writing : Pc

-- The next access of a thread. From `reading` and `writing` it is that of `rwlock_runlock` and of
-- `rwlock_wunlock`; 1 is only taken from a count to which the thread itself has added 1.
unfoldable pub act : Pc → Rwlock → Pc × Rwlock
act idle m = (idle, m)
act waiting m = (if m.write == 0 then adding else waiting, m)
act adding m = (testing, record m { read = m.read + 1 })
act testing m = (if m.write == 0 then reading else undoing, m)
act undoing m = (waiting, record m { read = m.read - 1 })
act reading m = (idle, record m { read = m.read - 1 })
act spinning m = (if m.write == 0 then draining else spinning, record m { write = 1 })
act draining m = (if m.read == 0 then writing else draining, m)
act writing m = (idle, record m { write = 0 })

pub record System : Type 0 where
  pub lock : Rwlock
  pub threads : List Pc

abbrev pub replace : ℕ → Pc → List Pc → List Pc
replace i p [] = []
replace zero p (q ∷ l) = p ∷ l
replace (suc i) p (q ∷ l) = q ∷ replace i p l

pub data Step (s : System) : System → Type 0 where
  -- A thread calls `rwlock_rlock`.
  read_lock :
      (i : ℕ)
      → get_elem? s.threads i ≡ some idle
      → Step s (record s { threads = replace i waiting s.threads })
  -- A thread calls `rwlock_wlock`.
  write_lock :
      (i : ℕ)
      → get_elem? s.threads i ≡ some idle
      → Step s (record s { threads = replace i spinning s.threads })
  -- A thread makes its next access.
  access :
      (i : ℕ) (p : Pc)
      → get_elem? s.threads i ≡ some p
      → Step s (record { lock = (act p s.lock).1; threads = replace i (act p s.lock).0 s.threads })

abbrev pub idle_threads : ℕ → List Pc
idle_threads zero = []
idle_threads (suc n) = idle ∷ idle_threads n

pub data Reach (n : ℕ) : System → Type 0 where
  here : Reach n (record { lock = rwlock_init; threads = idle_threads n })
  next : {s t : System} → Reach n s → Step s t → Reach n t
