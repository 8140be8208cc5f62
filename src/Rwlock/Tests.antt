-- ===== src/Rwlock/Tests.antt =====
-- skynet-src/rwlock.h: the theorems at concrete states.
use paohuzi_server.Shared.{ℕ, zero, suc, ◌≡◌, ◌≢◌, refl, some, [], ◌∷◌, get_elem?}
use paohuzi_server.Rwlock.{
  Pc, spinning, waiting, draining, writing, reading, act, System, Reach, here, next, read_lock,
  write_lock, access,
}
use paohuzi_server.Rwlock.Exclusion.{exclusion}
use paohuzi_server.Rwlock.Progress.{progress}

-- One thread writes, the other waits to read.
abbrev one_writes : System
one_writes = record { lock = record { write = 1; read = 0 }; threads = writing ∷ (waiting ∷ []) }

one_writes-Reach : Reach 2 one_writes
unfolding act
one_writes-Reach =
    next
      (next (next (next here (write_lock 0 refl)) (access 0 spinning refl))
        (access 0 draining refl))
      (read_lock 1 refl)

exclusion_example : (¬ (some waiting ≡ some reading)) × (some waiting ≡ some writing → zero ≡ 1)
exclusion_example = exclusion 0 one_writes-Reach refl 1

abbrev both_wait : System
both_wait = record { lock = record { write = 0; read = 0 }; threads = spinning ∷ (waiting ∷ []) }

both_wait-Reach : Reach 2 both_wait
both_wait-Reach = next (next here (write_lock 0 refl)) (read_lock 1 refl)

nobody : (p : Pc) → spinning ≢ p → waiting ≢ p → (j : ℕ) → get_elem? both_wait.threads j ≢ some p
nobody p a b zero e = a cc
nobody p a b (suc zero) e = b cc
nobody p a b (suc (suc j)) e = cc

progress_example :
    (j : ℕ) × (q : Pc) × (get_elem? both_wait.threads j ≡ some q) × ((act q both_wait.lock).0 ≢ q)
progress_example =
    progress 1 waiting both_wait-Reach refl tt (nobody reading (λ e. cc) (λ e. cc))
      (nobody writing (λ e. cc) (λ e. cc))
