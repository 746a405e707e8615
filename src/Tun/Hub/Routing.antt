-- ===== src/Tun/Hub/Routing.antt =====
-- Where the hub of src/tun/hub.rs sends a packet.
use link_p2p.Prelude.{
  ◌≡◌, sym, Bool, true, false, ◌&&◌, not, Option, none, some, arith, if◌then◌else◌,
}
use link_p2p.Net.{Bytes, Ipv4Addr, Ipv6Addr, ipv4_eq, ipv6_eq}
use link_p2p.Table.{get}
use link_p2p.Table.Lookups.{get-All}
use link_p2p.Tun.Live.{OwnVips}
use link_p2p.Tun.Vip.{vip_in_mesh, vip6_in_mesh}
use link_p2p.Tun.Vip.Equal.{v4_keys, v6_keys, ipv4_eq_iff, ipv6_eq_iff}
use link_p2p.Tun.Packet.{ipv4_dst, ipv6_dst}
use link_p2p.Tun.Hub.{
  HubPeer, HubPeerIndex, dropped, to_tun, to_peer, by_address, forward, lookup_hub_peer,
  packet_destined_here, packet_src_matches_peer, mesh_dst_ok, hub_peer_to_mesh,
}
use link_p2p.Tun.Hub.Claims.{IsIndexed}

-- What the packet's address and the peers' addresses are, for a packet from `peer` to `other`.
pub record IsForwarded {NodeId : Type 0} (own : OwnVips) (peer other : HubPeer NodeId) (pkt : Bytes)
    : Type 0 where
  pub sender : packet_src_matches_peer pkt peer ≡ true
  pub receiver :
      by_address
        (ipv4_dst pkt)
        (ipv6_dst pkt)
        (λ dst. ipv4_eq dst other.vip)
        (λ dst. ipv6_eq dst other.vip6)
        false
      ≡ true
  pub elsewhere : packet_destined_here pkt own ≡ false
  pub no_echo :
      by_address
        (ipv4_dst pkt)
        (ipv6_dst pkt)
        (λ dst. ipv4_eq dst peer.vip)
        (λ dst. ipv6_eq dst peer.vip6)
        true
      ≡ false

-- The checks are on the packet's two addresses: `o4` and `o6` stand for what the packet holds.
module _ {NodeId : Type 0} (idx : HubPeerIndex NodeId) where
  abbrev receiver_of : (o4 : Option Ipv4Addr) (o6 : Option Ipv6Addr) (other : HubPeer NodeId) → Bool
  receiver_of o4 o6 other =
      by_address o4 o6 (λ dst. ipv4_eq dst other.vip) (λ dst. ipv6_eq dst other.vip6) false

  abbrev looked_up : Option Ipv4Addr → Option Ipv6Addr → Option (HubPeer NodeId)
  looked_up o4 o6 =
      by_address o4 o6 (λ dst. get v4_keys idx.by_v4 dst) (λ dst. get v6_keys idx.by_v6 dst) none

  found-receiver :
      (w : IsIndexed idx) (o4 : Option Ipv4Addr) (o6 : Option Ipv6Addr) (other : HubPeer NodeId)
      → looked_up o4 o6 ≡ some other
      → receiver_of o4 o6 other ≡ true
  found-receiver w (some dst) o6 other h =
      let key =
        get-All v4_keys (λ (e : Ipv4Addr × HubPeer NodeId). e.1.vip ≡ e.0) idx.by_v4 dst other
          w.v4_own h in
      (ipv4_eq_iff dst other.vip).1 (sym key)
  found-receiver w none (some dst) other h =
      let key =
        get-All v6_keys (λ (e : Ipv6Addr × HubPeer NodeId). e.1.vip6 ≡ e.0) idx.by_v6 dst other
          w.v6_own h in
      (ipv6_eq_iff dst other.vip6).1 (sym key)
  found-receiver w none none other h = absurd (ground (arith, h))

negated : (a b : Bool) → (a && not b) ≡ true → b ≡ false
negated a b h = ground (arith, h)

mesh_dst_ok-no_echo :
    {NodeId : Type 0} (o4 : Option Ipv4Addr) (o6 : Option Ipv6Addr) (peer : HubPeer NodeId)
    → by_address o4 o6
        (λ dst. vip_in_mesh dst && not (ipv4_eq dst peer.vip))
        (λ dst. vip6_in_mesh dst && not (ipv6_eq dst peer.vip6))
        false
      ≡ true
    → by_address o4 o6 (λ dst. ipv4_eq dst peer.vip) (λ dst. ipv6_eq dst peer.vip6) true ≡ false
mesh_dst_ok-no_echo (some dst) o6 peer h = negated (vip_in_mesh dst) (ipv4_eq dst peer.vip) h
mesh_dst_ok-no_echo none (some dst) peer h = negated (vip6_in_mesh dst) (ipv6_eq dst peer.vip6) h
mesh_dst_ok-no_echo none none peer h = absurd (ground (arith, h))

-- The three tests of `hub_peer_to_mesh`, at any outcome.
checks :
    {NodeId : Type 0} (sender here mesh : Bool) (found : Option (HubPeer NodeId)) (pkt out : Bytes)
    (other : HubPeer NodeId)
    → (if not sender
        then dropped
        else if here
        then to_tun pkt
        else if not mesh
        then dropped
        else forward found pkt)
      ≡ to_peer other out
    → (out ≡ pkt) × (sender ≡ true) × (here ≡ false) × (mesh ≡ true) × (found ≡ some other)
checks sender here mesh none pkt out other h = ground (arith, h)
checks sender here mesh (some p) pkt out other h = ground (arith, h)

-- When the index is well formed, a packet that the hub forwards from one spoke to another is the one
-- it received; its source is the sender's own virtual IP, its destination the receiver's, which is
-- neither the hub's nor the sender's.
pub hub_peer_to_mesh-IsForwarded :
    {NodeId : Type 0} (own : OwnVips) (idx : HubPeerIndex NodeId) (peer other : HubPeer NodeId)
    (pkt out : Bytes)
    → IsIndexed idx
    → hub_peer_to_mesh own idx peer pkt ≡ to_peer other out
    → (out ≡ pkt) × IsForwarded own peer other pkt
unfolding hub_peer_to_mesh lookup_hub_peer mesh_dst_ok
hub_peer_to_mesh-IsForwarded own idx peer other pkt out w h =
    let c =
      checks (packet_src_matches_peer pkt peer) (packet_destined_here pkt own)
        (mesh_dst_ok pkt peer) (lookup_hub_peer idx pkt) pkt out other h in
    (
      c.0,
      record {
        sender = c.1;
        receiver = found-receiver idx w (ipv4_dst pkt) (ipv6_dst pkt) other c.4;
        elsewhere = c.2;
        no_echo = mesh_dst_ok-no_echo (ipv4_dst pkt) (ipv6_dst pkt) peer c.3;
      },
    )
