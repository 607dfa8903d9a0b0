-- ===== src/Tests/Leasing.antt =====
-- The leases on a small store.
use agent_machine.Common.{
  ◌&&◌, ltb, String, ◌≡◌, refl, arith, true, false, not, ◌==◌, if◌then◌else◌,
}
use agent_machine.Common.Table.{passes, applied}
use agent_machine.State.{is_zero, Lease, ok, err, lease_held}
use agent_machine.State.Holds.{Holds}
use agent_machine.State.Tasks.Claims.{never}
use agent_machine.State.Leases.{
  held, normalize_lease, is_active, acquire_lease, renew_lease, release_lease, reclaim_lease,
}
use agent_machine.State.Leases.Acquire.{
  Granted, IsFree, IsHeldUnreleased, granted, acquire_lease-Granted, reclaim_lease-Granted,
}
use agent_machine.State.Leases.Exclusive.{acquire_lease-exclusive}
use agent_machine.State.Leases.Working.{KeepsOrder, acquire_lease-grants, renew-release_lem}
use agent_machine.Tests.Data.{platform, store, store-HasUniqueNames, lease_of, broken}

abbrev second : Lease
second = lease_of "host:2" 9 20

abbrev third : Lease
third = lease_of "host:3" 12 30

acquire_lease-Granted_example :
    Holds
      (Granted (IsFree 9) (normalize_lease 9 9 second) store.leases)
      (acquire_lease platform broken 9 second 9)
      store
acquire_lease-Granted_example =
    acquire_lease-Granted platform broken 9 store store-HasUniqueNames second 9

reclaim_lease-Granted_example :
    Holds
      (Granted IsHeldUnreleased (normalize_lease 9 9 second) store.leases)
      (reclaim_lease platform never 9 second 9 "")
      store
reclaim_lease-Granted_example =
    reclaim_lease-Granted platform never 9 store store-HasUniqueNames second 9 ""

halves : KeepsOrder platform
halves s t h = omega (arith, h)

acquire_lease-grants_example :
    (acquire_lease platform never 9 second 9 store).0
    ≡ ok (
        not (
          passes
            (λ old. is_zero old.released_at && ltb 9 old.expires_at)
            (held store.leases "lane")))
acquire_lease-grants_example =
    acquire_lease-grants platform 9 store second 9 store-HasUniqueNames halves refl refl refl
      (unfold held in refl)

second-granted : granted (acquire_lease platform never 9 second 9 store).0 ≡ true
unfolding held is_active
second-granted =
    rw
      (acquire_lease-grants platform 9 store second 9 store-HasUniqueNames halves refl refl refl
        (unfold held in refl))
      refl

acquire_lease-exclusive_example :
    let after = (acquire_lease platform never 9 second 9 store).1 in
    let out = acquire_lease platform never 12 third 12 after in
    (granted out.0 ≡ false) × (out.1 ≡ after)
acquire_lease-exclusive_example =
    acquire_lease-exclusive platform never never 9 12 second third 9 12 store store-HasUniqueNames
      refl second-granted (omega arith)

renew-release_lem_example :
    let renewed = renew_lease platform never 5 "lane" 5 9 store in
    let released = release_lease platform never 5 "lane" 5 "done" store in
    let is_open = λ (l : Lease). is_zero l.released_at in
    let renewal = λ (l : Lease). record l { expires_at = 9; renewed_at = 5 } in
    let release = λ (l : Lease). record l { released_at = 5; release_reason = "done" } in
    (renewed.0 ≡ (if passes is_open (held store.leases "lane") then ok tt else err lease_held))
    × ((j : String)
        → held renewed.1.leases j ≡ (
            if "lane" == j
            then applied is_open renewal (held store.leases "lane")
            else held store.leases j))
    × (released.0
        ≡ (if passes (λ l. true) (held store.leases "lane") then ok tt else err lease_held))
    × (passes (λ l. is_zero l.released_at && ltb 6 l.expires_at) (held released.1.leases "lane")
        ≡ false)
    × ((j : String)
        → held released.1.leases j ≡ (
            if "lane" == j
            then applied (λ l. true) release (held store.leases "lane")
            else held store.leases j))
renew-release_lem_example =
    renew-release_lem platform 5 store "lane" "done" 5 9 6 store-HasUniqueNames refl refl
