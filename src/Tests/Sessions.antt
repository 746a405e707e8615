-- ===== src/Tests/Sessions.antt =====
-- Virtual IPs at concrete inputs.
use link_p2p.Prelude.{ℕ, ◌==◌, none, if◌then◌else◌}
use link_p2p.Outcome.{Msg, Result, ok, err, root}
use link_p2p.Tun.Vip.{allocate_vip}
use link_p2p.Tun.Vip.Allocated.{IsAllocation, allocate_vip-IsAllocation}

-- The first two addresses are taken.
abbrev third_free : ℕ → Result (Unit {0})
third_free a = if a == 2 then ok tt else err (root Msg.vip_not_free)

allocate_vip-IsAllocation_example :
    IsAllocation (λ salt. salt) third_free none (allocate_vip (λ salt. salt) third_free none)
allocate_vip-IsAllocation_example = allocate_vip-IsAllocation (λ salt. salt) third_free none
