-- ===== src/Tests/Spokes.antt =====
-- A spoke with a hub, a direct peer and packets, at concrete steps.
use link_p2p.Prelude.{ℕ, ◌≡◌, none, [], ◌∷◌}
use link_p2p.Net.{Bytes}
use link_p2p.Endpoint.Keys.{number_keys}
use link_p2p.Roster.{RosterEntry}
use link_p2p.Table.{get}
use link_p2p.Tun.Live.{OwnVips}
use link_p2p.Tun.Vip.Equal.{v4_keys, v6_keys}
use link_p2p.Tun.Spoke.{SpokeMesh, new_mesh, hub_attached, announced, inbound_direct}
use link_p2p.Tun.Spoke.Steps.{Step, hub_up, called, Reach, here, next}
use link_p2p.Tun.Spoke.Invariant.{Reach-IsForeign}
use link_p2p.Tests.Stubs.{mesh4, mesh6}

abbrev vips : ℕ → OwnVips
vips n = record { v4 = mesh4 n; v6 = mesh6 n }

-- The spoke 5, with its hub 9 on the queue 1. The peer 2 dials in on the queue 7.
abbrev empty : SpokeMesh ℕ ℕ
empty = new_mesh 5 (vips 5)

abbrev with_hub : SpokeMesh ℕ ℕ
with_hub = hub_attached number_keys 9 (vips 9) 1 empty

abbrev with_peer : SpokeMesh ℕ ℕ
with_peer = inbound_direct number_keys 5 (vips 5) none 2 (announced (vips 2) 7) with_hub

up : Step number_keys 5 (vips 5) none empty with_hub
up = hub_up empty 9 (vips 9) 1

in_call : Step number_keys 5 (vips 5) none with_hub with_peer
in_call = called with_hub 2 (announced (vips 2) 7)

reached : Reach number_keys 5 (vips 5) none empty with_peer
reached = next (next here up) in_call

Reach-IsForeign_example :
    (get v4_keys with_peer.direct (mesh4 5) ≡ none)
    × (get v6_keys with_peer.direct6 (mesh6 5) ≡ none)
Reach-IsForeign_example = Reach-IsForeign number_keys 5 (vips 5) none reached

-- An IPv4 header to a peer.
abbrev packet_to : ℕ → Bytes
packet_to n =
    0x45 ∷ 0 ∷ 0 ∷ 20 ∷ 0 ∷ 0 ∷ 0 ∷ 0 ∷ 64 ∷ 17 ∷ 0 ∷ 0 ∷ 172 ∷ 24 ∷ 0 ∷ 5 ∷ 172 ∷ 24 ∷ 0 ∷ n ∷ []

-- The roster's entry of the peer 6, which the spoke 5 dials and which gets the queue 3.
abbrev entry_6 : RosterEntry ℕ
entry_6 = record { vip = mesh4 6; vip6 = mesh6 6; id = 6 }
