-- ===== src/Monitor.antt =====
-- skynet-src/skynet_monitor.c: a worker thread counts the messages that it begins and ends, and the
-- monitor thread looks whether the count has moved since it looked last. The look is one step, which may
-- come between any two accesses of the worker.
pub mod Watch
mod Tests
use paohuzi_server.Shared.{
  ℕ, ◌+◌, ◌%◌, ◌^◌, Option, none, some, ◌==◌, if◌then◌else◌, List, [], ◌∷◌, ◌++◌,
}

-- `struct skynet_monitor`; the versions are `int`s that wrap.
pub record Monitor : Type 0 where
  pub version : ℕ
  pub check_version : ℕ
  pub source : ℕ
  pub destination : ℕ

-- `skynet_monitor_new`
unfoldable pub monitor_new : Monitor
monitor_new = record { version = 0; check_version = 0; source = 0; destination = 0 }

-- An access of `skynet_monitor_trigger` to the monitor; the monitor thread may come between two.
pub data Access : Type 0 where
  set_source : ℕ → Access
  set_destination : ℕ → Access
  count : Access

unfoldable pub access : Monitor → Access → Monitor
access sm (set_source source) = record sm { source = source }
access sm (set_destination destination) = record sm { destination = destination }
access sm count = record sm { version = (sm.version + 1) % 2 ^ 32 }

unfoldable pub accesses : Monitor → List Access → Monitor
accesses sm [] = sm
accesses sm (a ∷ l) = accesses (access sm a) l

-- `skynet_monitor_trigger`
unfoldable pub trigger : ℕ → ℕ → List Access
trigger source destination = set_source source ∷ (set_destination destination ∷ (count ∷ []))

-- `skynet_monitor_check`, with the source and the destination of the message that is reported to be in
-- an endless loop, if any.
unfoldable pub check : Monitor → Monitor × Option (ℕ × ℕ)
check sm =
    if sm.version == sm.check_version
    then (sm, if sm.destination == 0 then none else some (sm.source, sm.destination))
    else (record sm { check_version = sm.version }, none)

-- The calls of a worker thread: for each the source and the destination.
unfoldable pub triggers : List (ℕ × ℕ) → List Access
triggers [] = []
triggers ((source, destination) ∷ l) = trigger source destination ++ triggers l
