-- ===== src/Monitor/Tests.antt =====
-- skynet-src/skynet_monitor.c: the theorem at a concrete input.
use paohuzi_server.Shared.{◌≡◌, [], ◌++◌, arith, ◌-◌, ◌^◌, some, refl}
use paohuzi_server.Monitor.{Monitor, check, trigger, triggers, access, accesses}
use paohuzi_server.Monitor.Watch.{source_set, begun, watch}

abbrev idle : Monitor
idle = record { version = 2 ^ 32 - 1; check_version = 5; source = 0; destination = 0 }

-- A thread that is at work on a message for service 9, and is about to begin another call.
watch_example :
    let sm = (check (accesses idle (trigger 1 9))).0 in
    let (after, report) = check (accesses sm (triggers [] ++ begun (source_set 0))) in
    (report ≡ some (0, 9)) × (after.version ≡ after.check_version)
watch_example =
    watch idle 1 9 [] (source_set 0) (record { version_in = omega arith; check_in = omega arith })
      (omega arith)

watch_report : (check (check (accesses idle (trigger 1 9))).0).1 ≡ some (1, 9)
unfolding check accesses access trigger
watch_report = refl
