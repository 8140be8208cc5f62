-- ===== src/Monitor/Watch.antt =====
-- skynet-src/skynet_monitor.c: what is reported.
use paohuzi_server.Shared.{
  ℕ, ◌+◌, ◌%◌, ◌^◌, ◌<◌, ◌≡◌, refl, true, Option, none, some, List, [], ◌∷◌, ◌++◌, ◌==◌,
  if◌then◌else◌, ==_ne, ap, ◌∙◌, ◌≢◌, arith, length, ℕ_discrete,
}
use paohuzi_server.Monitor.{
  Monitor, Access, set_source, set_destination, count, access, accesses, trigger, check, triggers,
}

-- The versions are in the range of an `int`.
pub record IsMonitor (sm : Monitor) : Type 0 where
  pub version_in : sm.version < 2 ^ 32
  pub check_in : sm.check_version < 2 ^ 32

-- How often the version is counted up
abbrev counted : List Access → ℕ
counted [] = 0
counted (set_source n ∷ l) = counted l
counted (set_destination n ∷ l) = counted l
counted (count ∷ l) = counted l + 1

accesses_lem :
    (l : List Access) (sm : Monitor)
    → IsMonitor sm
    → ((accesses sm l).version ≡ (sm.version + counted l) % 2 ^ 32)
      × ((accesses sm l).check_version ≡ sm.check_version)
unfolding accesses access
accesses_lem [] sm v = (omega (arith, v.version_in), refl)
accesses_lem (set_source n ∷ l) sm v =
    accesses_lem l (access sm (set_source n))
      (record { version_in = v.version_in; check_in = v.check_in })
accesses_lem (set_destination n ∷ l) sm v =
    accesses_lem l (access sm (set_destination n))
      (record { version_in = v.version_in; check_in = v.check_in })
accesses_lem (count ∷ l) sm v =
    let ih =
      accesses_lem l (access sm count)
        (record { version_in = omega arith; check_in = v.check_in }) in
    (omega (arith, ih.0), ih.1)

accesses-IsMonitor : (l : List Access) (sm : Monitor) → IsMonitor sm → IsMonitor (accesses sm l)
accesses-IsMonitor l sm v =
    let moved = accesses_lem l sm v in
    record { version_in = omega (arith, moved.0); check_in = omega (arith, moved.1, v.check_in) }

-- What is reported of a message
abbrev pub suspect : ℕ → ℕ → Option (ℕ × ℕ)
suspect source destination = if destination == 0 then none else some (source, destination)

checked_lem :
    (sm : Monitor)
    → IsMonitor sm
    → IsMonitor (check sm).0 × ((check sm).0.version ≡ (check sm).0.check_version)
unfolding check
checked_lem sm v = elim (ℕ_discrete sm.version sm.check_version) [
  | yes e ↦ ground (arith, e, v)
  | no ne ↦
      rw (==_ne sm.version sm.check_version ne)
        (record { version_in = v.version_in; check_in = v.version_in }, refl)
]

checked_same :
    (sm : Monitor) → ((check sm).0.source ≡ sm.source) × ((check sm).0.destination ≡ sm.destination)
unfolding check
checked_same sm = elim (ℕ_discrete sm.version sm.check_version) [
  | yes e ↦ let t : (sm.version == sm.check_version) ≡ true = ground arith in rw t (refl, refl)
  | no ne ↦ rw (==_ne sm.version sm.check_version ne) (refl, refl)
]

-- A check of two versions that are equal, and of two that are not.
check_same :
    (sm : Monitor) → sm.version ≡ sm.check_version → (check sm).1 ≡ suspect sm.source sm.destination
unfolding check
check_same sm e = let t : (sm.version == sm.check_version) ≡ true = ground arith in rw t refl

check_moved : (sm : Monitor) → sm.version ≢ sm.check_version → (check sm).1 ≡ none
unfolding check
check_moved sm ne = rw (==_ne sm.version sm.check_version ne) refl

-- What is seen of a call of `skynet_monitor_trigger` that has not counted yet: nothing, the source, or
-- both source and destination.
pub data Begun : Type 0 where
  not_begun : Begun
  source_set : ℕ → Begun
  both_set : ℕ → ℕ → Begun

abbrev pub begun : Begun → List Access
begun not_begun = []
begun (source_set source) = set_source source ∷ []
begun (both_set source destination) = set_source source ∷ (set_destination destination ∷ [])

-- What is reported, where `source` and `destination` are those of the last call before.
abbrev pub seen : ℕ → ℕ → Begun → Option (ℕ × ℕ)
seen source destination not_begun = suspect source destination
seen source destination (source_set source') = suspect source' destination
seen source destination (both_set source' destination') = suspect source' destination'

begun_report :
    (b : Begun) (sm : Monitor)
    → sm.version ≡ sm.check_version
    → (check (accesses sm (begun b))).1 ≡ seen sm.source sm.destination b
unfolding accesses access
begun_report not_begun sm e = check_same sm e
begun_report (source_set source) sm e = check_same (record sm { source = source }) e
begun_report (both_set source destination) sm e =
    check_same (record sm { source = source; destination = destination }) e

counted_begun : (b : Begun) → counted (begun b) ≡ 0
counted_begun not_begun = refl
counted_begun (source_set source) = refl
counted_begun (both_set source destination) = refl

counted_triggers : (l : List (ℕ × ℕ)) (b : Begun) → counted (triggers l ++ begun b) ≡ length l
unfolding triggers trigger
counted_triggers [] b = counted_begun b
counted_triggers ((source, destination) ∷ l) b = omega (arith, counted_triggers l b)

after_trigger :
    (sm : Monitor) (source destination : ℕ)
    → ((accesses sm (trigger source destination)).source ≡ source)
      × ((accesses sm (trigger source destination)).destination ≡ destination)
unfolding accesses access trigger
after_trigger sm source destination = (refl, refl)

-- What the second check reports
abbrev pub reported : ℕ → ℕ → List (ℕ × ℕ) → Begun → Option (ℕ × ℕ)
reported source destination [] b = seen source destination b
reported source destination (x ∷ l) b = none

report_lem :
    (sm : Monitor) (l : List (ℕ × ℕ)) (b : Begun)
    → IsMonitor sm
    → sm.version ≡ sm.check_version
    → length l < 2 ^ 32
    → (check (accesses sm (triggers l ++ begun b))).1 ≡ reported sm.source sm.destination l b
unfolding triggers
report_lem sm [] b v same few = begun_report b sm same
report_lem sm (x ∷ l) b v same few =
    let all : List Access = triggers (x ∷ l) ++ begun b in
    let moved = accesses_lem all sm v in
    let n = counted_triggers (x ∷ l) b in
    check_moved (accesses sm all)
      (λ e. absurd (omega (arith, moved.0, moved.1, same, e, n, v.version_in)))

-- A worker thread calls `skynet_monitor_trigger` with `source` and `destination`, and the monitor thread
-- checks; then the worker makes fewer than 2^32 more calls, and perhaps begins another, and the monitor
-- thread checks again. It reports, if there was no whole call in between, source and destination of the
-- last call as far as that of the next has not replaced them, unless that destination is 0; if there was
-- one, it reports nothing. The versions are equal then.
pub watch :
    (sm : Monitor) (source destination : ℕ) (l : List (ℕ × ℕ)) (b : Begun)
    → IsMonitor sm
    → length l < 2 ^ 32
    → let sm' = (check (accesses sm (trigger source destination))).0 in
      let (sm'', report) = check (accesses sm' (triggers l ++ begun b)) in
      (report ≡ reported source destination l b) × (sm''.version ≡ sm''.check_version)
watch sm source destination l b v few =
    let sm1 : Monitor = accesses sm (trigger source destination) in
    let sm2 : Monitor = (check sm1).0 in
    let v1 = accesses-IsMonitor (trigger source destination) sm v in
    let (valid, same) = checked_lem sm1 v1 in
    let set = after_trigger sm source destination in
    let kept = checked_same sm1 in
    let s : sm2.source ≡ source = kept.0 ∙ set.0 in
    let d : sm2.destination ≡ destination = kept.1 ∙ set.1 in
    (
      report_lem sm2 l b valid same few
          ∙ ap (λ x. reported x sm2.destination l b) s
          ∙ ap (λ x. reported source x l b) d,
      (checked_lem (accesses sm2 (triggers l ++ begun b))
          (accesses-IsMonitor (triggers l ++ begun b) sm2 valid)).1,
    )
