-- ===== src/Tun/Spoke/Delivery.antt =====
-- Where a spoke of src/tun/spoke.rs sends a packet while it has a hub.
use link_p2p.Prelude.{◌≡◌, refl, ◌∙◌, Bool, true, false, Option, none, some, List, arith}
use link_p2p.Net.{Bytes, Ipv4Addr, Ipv6Addr, ipv4_eq, ipv6_eq}
use link_p2p.Endpoint.{Endpoints}
use link_p2p.Table.{get}
use link_p2p.Tun.Live.{OwnVips}
use link_p2p.Tun.Hub.{by_address}
use link_p2p.Tun.Packet.{ipv4_dst, ipv6_dst}
use link_p2p.Tun.Vip.{vip_in_mesh, vip6_in_mesh}
use link_p2p.Tun.Vip.Equal.{v4_keys, v6_keys}
use link_p2p.Tun.Spoke.{SpokeMesh, new_mesh, is_at, route, lookup_out}
use link_p2p.Tun.Spoke.Steps.{Reach}
use link_p2p.Tun.Spoke.Invariant.{reached-HubWhole, new-HubWhole, whole_out}

-- The destination of a packet is an address of the mesh.
abbrev pub mesh_bound : Bytes → Bool
mesh_bound pkt = by_address (ipv4_dst pkt) (ipv6_dst pkt) vip_in_mesh vip6_in_mesh false

-- It is one of the two addresses.
abbrev pub bound_to : Ipv4Addr → Ipv6Addr → Bytes → Bool
bound_to v4 v6 pkt = by_address (ipv4_dst pkt) (ipv6_dst pkt) (ipv4_eq v4) (ipv6_eq v6) false

module _ {NodeId Out : Type 0} (ids : Endpoints NodeId) (own_id : NodeId) (own : OwnVips)
    (allow : Option (List NodeId)) where
  abbrev routed : SpokeMesh NodeId Out → Option Ipv4Addr → Option Ipv6Addr → Option Out
  routed g o4 o6 = elim o4 [
    | some dst ↦
        route (is_at ipv4_eq g.hub_vip dst) (get v4_keys g.direct dst) (vip_in_mesh dst) g.hub_out
    | none ↦ elim o6 [
      | some dst ↦
          route (is_at ipv6_eq g.hub_vip6 dst) (get v6_keys g.direct6 dst) (vip6_in_mesh dst)
            g.hub_out
      | none ↦ none
    ]
  ]

  routed-hub :
      (g : SpokeMesh NodeId Out) (v4 : Ipv4Addr) (v6 : Ipv6Addr) (o4 : Option Ipv4Addr)
      (o6 : Option Ipv6Addr)
      → g.hub_vip ≡ some v4
      → g.hub_vip6 ≡ some v6
      → by_address o4 o6 (ipv4_eq v4) (ipv6_eq v6) false ≡ true
      → routed g o4 o6 ≡ g.hub_out
  routed-hub g v4 v6 (some dst) o6 h4 h6 m =
      let there : ipv4_eq v4 dst ≡ true = m in rw (h4, there) refl
  routed-hub g v4 v6 none (some dst) h4 h6 m =
      let there : ipv6_eq v6 dst ≡ true = m in rw (h6, there) refl
  routed-hub g v4 v6 none none h4 h6 m = absurd (ground (arith, m))

  -- Whatever a spoke went through, no direct route hides its hub: a packet to either of the hub's
  -- addresses is put in the queue of the session with the hub.
  pub lookup_out-hub :
      {g : SpokeMesh NodeId Out} (v4 : Ipv4Addr) (v6 : Ipv6Addr) (pkt : Bytes)
      → Reach ids own_id own allow (new_mesh own_id own) g
      → g.hub_vip ≡ some v4
      → g.hub_vip6 ≡ some v6
      → bound_to v4 v6 pkt ≡ true
      → (tx : Out) × (g.hub_out ≡ some tx) × (lookup_out g pkt ≡ some tx)
  unfolding lookup_out
  lookup_out-hub {g = g} v4 v6 pkt r h4 h6 m =
      let (tx, e) =
        whole_out ids own_id own allow v4 g.hub_vip
          (reached-HubWhole ids own_id own allow r (new-HubWhole ids own_id own allow)) h4 in
      (tx, e, routed-hub g v4 v6 (ipv4_dst pkt) (ipv6_dst pkt) h4 h6 m ∙ e)
