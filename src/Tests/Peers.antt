-- ===== src/Tests/Peers.antt =====
-- A hub with one peer, at concrete claims and packets.
use link_p2p.Prelude.{ℕ, ◌≡◌, refl, false, ◌||◌, some, [], ◌∷◌, ◌++◌}
use link_p2p.Net.{Bytes, octets4}
use link_p2p.Endpoint.Keys.{number_keys}
use link_p2p.Table.{get, ArcSwap}
use link_p2p.Tun.Live.{OwnVips}
use link_p2p.Tun.Vip.{vip_in_mesh}
use link_p2p.Tun.Vip.Equal.{v4_keys, v6_keys}
use link_p2p.Tun.Packet.{ipv4_src, ipv4_dst}
use link_p2p.Tun.Hub.{
  HubPeer, HubPeerIndex, foreign, try_claim_peer, peers_remove_if_owned, to_peer, lookup_hub_peer,
  packet_destined_here, packet_src_matches_peer, mesh_dst_ok, hub_peer_to_mesh,
}
use link_p2p.Tun.Hub.Claims.{IsIndexed}
use link_p2p.Tun.Hub.Owners.{reconnect-survives}
use link_p2p.Tun.Hub.Routing.{IsForwarded, hub_peer_to_mesh-IsForwarded}
use link_p2p.Tests.Stubs.{plain_swap, mesh4, mesh6}

abbrev spoke : ℕ → ℕ → HubPeer ℕ
spoke n session = record {
  id = n;
  session = session;
  vip = mesh4 n;
  vip6 = mesh6 n;
  hidden = false;
}

-- Peer 2, in session 1.
abbrev one_peer : HubPeerIndex ℕ
one_peer = record { by_v4 = (mesh4 2, spoke 2 1) ∷ []; by_v6 = (mesh6 2, spoke 2 1) ∷ [] }

abbrev cell : ArcSwap (HubPeerIndex ℕ)
cell = plain_swap (HubPeerIndex ℕ)

-- Peer 3 claims its own IPv4 address, which it holds already, with the IPv6 address of peer 2.
abbrev claimant : HubPeer ℕ
claimant = record { id = 3; session = 4; vip = mesh4 3; vip6 = mesh6 2; hidden = false }

abbrev two_peers : HubPeerIndex ℕ
two_peers = record {
  by_v4 = (mesh4 3, spoke 3 2) ∷ (mesh4 2, spoke 2 1) ∷ [];
  by_v6 = (mesh6 3, spoke 3 2) ∷ (mesh6 2, spoke 2 1) ∷ [];
}

free_for_2 :
    (foreign number_keys (spoke 2 5) (get v4_keys one_peer.by_v4 (mesh4 2))
      || foreign number_keys (spoke 2 5) (get v6_keys one_peer.by_v6 (mesh6 2)))
    ≡ false
unfolding get number_keys
free_for_2 = refl

reconnect-survives_example :
    ((peers_remove_if_owned cell
        (λ c. c)
        (mesh4 2)
        (mesh6 2)
        1
        (try_claim_peer number_keys cell (λ c. c) (spoke 2 5) one_peer).1).0
      ≡ false)
    × (get v4_keys
          (cell.load
            (peers_remove_if_owned cell
              (λ c. c)
              (mesh4 2)
              (mesh6 2)
              1
              (try_claim_peer number_keys cell (λ c. c) (spoke 2 5) one_peer).1).1).by_v4
          (mesh4 2)
        ≡ some (spoke 2 5))
    × (get v6_keys
          (cell.load
            (peers_remove_if_owned cell
              (λ c. c)
              (mesh4 2)
              (mesh6 2)
              1
              (try_claim_peer number_keys cell (λ c. c) (spoke 2 5) one_peer).1).1).by_v6
          (mesh6 2)
        ≡ some (spoke 2 5))
reconnect-survives_example =
    reconnect-survives number_keys cell 1 (spoke 2 5) one_peer refl free_for_2

two_peers-IsIndexed : IsIndexed two_peers
two_peers-IsIndexed = record { v4_own = (refl, (refl, tt)); v6_own = (refl, (refl, tt)) }

abbrev hub_vips : OwnVips
hub_vips = record { v4 = mesh4 1; v6 = mesh6 1 }

-- From peer 2 to peer 3.
abbrev packet : Bytes
packet =
    0x45 ∷ 0 ∷ 0 ∷ 20 ∷ 0 ∷ 0 ∷ 0 ∷ 0 ∷ 64 ∷ 17 ∷ 0 ∷ 0 ∷ octets4 (mesh4 2) ++ octets4 (mesh4 3)

packet-forwarded :
    hub_peer_to_mesh hub_vips two_peers (spoke 2 1) packet ≡ to_peer (spoke 3 2) packet
unfolding hub_peer_to_mesh packet_src_matches_peer packet_destined_here mesh_dst_ok lookup_hub_peer
    ipv4_src ipv4_dst vip_in_mesh get
packet-forwarded = refl

hub_peer_to_mesh-IsForwarded_example :
    (packet ≡ packet) × IsForwarded hub_vips (spoke 2 1) (spoke 3 2) packet
hub_peer_to_mesh-IsForwarded_example =
    hub_peer_to_mesh-IsForwarded hub_vips two_peers (spoke 2 1) (spoke 3 2) packet packet
      two_peers-IsIndexed packet-forwarded
