-- ===== src/Mq/Queues.antt =====
-- skynet-src/skynet_mq.c with its callers in skynet-src/skynet_server.c: which thread may work on a
-- message queue. A step is one call that the locks make atomic. A thread holds a queue from the
-- call that took it off the global queue (or created it) to the one that gave it back.
pub mod Steps
pub mod Safety
use paohuzi_server.Shared.{
  ℕ, zero, suc, ◌+◌, ◌-◌, ◌*◌, ◌%◌, ◌≤◌, ◌<◌, ◌≡◌, refl, ◌≢◌, Bool, true, false, Option, none, some,
  List, [], ◌∷◌, ◌++◌, arith, ltb, leb, ◌==◌, if◌then◌else◌, ◌>>=◌, length, inl, inr, ◌⊎◌, ◌^◌, sym,
  length-append, update, update_same, update_ne, ℕ_discrete, ◌∙◌, ap, ◌&&◌, ◌||◌, Option-cases,
  Bool-cases, subst,
}
use paohuzi_server.Shared.Holders.{Held, HeldBy, remove, one_if, holders}
use paohuzi_server.Mq.{
  Message, MessageQueue, World, put, create, take_overload, globalmq_push, globalmq_pop, mq_push,
  mq_pop, mark_release, mq_release, drop_queue, store_message, mq_overload, require_null, pop_from,
  mq_length,
}
use paohuzi_server.Mq.Ring.{
  IsValid, Holds, store_message_ok, mq_pop_lem, mq_pop_empty, create-IsValid, create-Holds,
}
use paohuzi_server.Mq.Global.{
  In, Distinct, IsGlobal, IsGlobal-put, IsGlobal-replace, fresh-not_In, SameButNext, SameRings,
  In-append, globalmq_push_lem, globalmq_pop_lem, globalmq_pop_empty,
}

pub record System : Type 0 where
  pub world : World
  pub held : Held

abbrev let_go : System → World → ℕ → ℕ → System
let_go s w i a = record { world = w; held = remove i a s.held }

pub data Step (s : System) : System → Type 0 where
  -- `skynet_context_new` makes the queue of a new service.
  make :
      (i a handle : ℕ)
      → s.world.heap a ≡ none
      → Step s (record { world = put s.world a (create handle); held = (i, a) ∷ s.held })
  -- A sender that holds a reference to the service pushes a message.
  send :
      (a : ℕ) (m : Message) (q : MessageQueue) {w : World}
      → s.world.heap a ≡ some q
      → q.release ≡ false
      → mq_push s.world a m ≡ some w
      → Step s (record { world = w; held = s.held })
  -- A thread takes the next queue to work on.
  take :
      (i a : ℕ) {w : World}
      → globalmq_pop s.world ≡ some (w, some a)
      → Step s (record { world = w; held = (i, a) ∷ s.held })
  -- It gives a queue back to the others.
  give :
      (i a : ℕ) {w : World}
      → HeldBy i a s.held
      → globalmq_push s.world a ≡ some w
      → Step s (let_go s w i a)
  -- It takes a message off its queue.
  work :
      (i a : ℕ) (q q' : MessageQueue) (m : Message)
      → HeldBy i a s.held
      → s.world.heap a ≡ some q
      → mq_pop q ≡ some (q', some m)
      → Step s (record { world = put s.world a q'; held = s.held })
  -- It reads the overload report.
  report :
      (i a : ℕ) (q : MessageQueue)
      → HeldBy i a s.held
      → s.world.heap a ≡ some q
      → Step s (record { world = put s.world a (take_overload q).0; held = s.held })
  -- It finds its queue empty, and drops it.
  park :
      (i a : ℕ) (q q' : MessageQueue)
      → HeldBy i a s.held
      → s.world.heap a ≡ some q
      → q.release ≡ false
      → mq_pop q ≡ some (q', none)
      → Step s (let_go s (put s.world a q') i a)
  -- `delete_context` marks the queue of a service that is gone.
  mark :
      (a : ℕ) (q : MessageQueue) {w : World}
      → s.world.heap a ≡ some q
      → mark_release s.world a ≡ some w
      → Step s (record { world = w; held = s.held })
  -- A thread whose queue has no service any more frees it, or gives it back.
  clear :
      (i a : ℕ) {w : World} {ms : List Message}
      → HeldBy i a s.held
      → mq_release s.world a ≡ some (w, ms)
      → Step s (let_go s w i a)

-- How often an address is on the global queue.
abbrev pub listed : ℕ → List ℕ → ℕ
listed a [] = 0
listed a (x ∷ l) = one_if (a == x) + listed a l

-- A queue with `n` owners: the global queue and the threads together.
abbrev pub Owned : Option MessageQueue → ℕ → Type 0
Owned none n = n ≡ 0
Owned (some q) n =
    IsValid q
    × (n ≡ one_if (q.in_global || q.release))
    × ((ms : List Message) × Holds q ms × (q.in_global ≡ false → ms ≡ []))

pub record Inv (s : System) (l : List ℕ) : Type 0 where
  pub global : IsGlobal s.world l
  pub owned : (a : ℕ) → Owned (s.world.heap a) (listed a l + holders a s.held)
