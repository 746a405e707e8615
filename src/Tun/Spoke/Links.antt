-- ===== src/Tun/Spoke/Links.antt =====
-- The direct links of a spoke of src/tun/spoke.rs: which ones a dial makes, which ones an inbound
-- connection makes, and what the end of a link takes with it.
use link_p2p.Prelude.{◌≡◌, refl, ◌∙◌, true, false, ◌&&◌, Option, some, List, Bool-cases, inl, inr}
use link_p2p.Net.{Bytes, Ipv4Addr, ipv4_eq, ipv6_eq}
use link_p2p.Endpoint.{Endpoints}
use link_p2p.Roster.{RosterEntry, should_dial}
use link_p2p.Table.{get}
use link_p2p.Table.Lookups.{get-insert_same, get-remove_same}
use link_p2p.Tun.Live.{OwnVips}
use link_p2p.Tun.Packet.{ipv4_dst}
use link_p2p.Tun.Vip.{vip_in_mesh}
use link_p2p.Tun.Vip.Equal.{v4_keys}
use link_p2p.Tun.Spoke.{
  SpokeMesh, announced, is_at, lookup_out, direct_closed, allowed, spoke_install_direct,
  accept_inbound, after_inbound, inbound_direct,
}
use link_p2p.Tun.Spoke.Routes.{is_ours}

module _ {NodeId Out : Type 0} (ids : Endpoints NodeId) (own : OwnVips) where
  installed_at :
      (id : NodeId) (peer : OwnVips) (tx : Out) (g : SpokeMesh NodeId Out)
      → is_ours own peer ≡ false
      → get v4_keys (spoke_install_direct ids own id peer tx g).direct peer.v4 ≡ some tx
  unfolding spoke_install_direct
  installed_at id peer tx g h = rw h (get-insert_same v4_keys g.direct peer.v4 tx)

  installed_hub :
      (id : NodeId) (peer : OwnVips) (tx : Out) (g : SpokeMesh NodeId Out)
      → (spoke_install_direct ids own id peer tx g).hub_vip ≡ g.hub_vip
  unfolding spoke_install_direct
  installed_hub id peer tx g = elim (Bool-cases (is_ours own peer)) [
    | inl t ↦ rw t refl
    | inr t ↦ rw t refl
  ]

  installed_out :
      (id : NodeId) (peer : OwnVips) (tx : Out) (g : SpokeMesh NodeId Out)
      → (spoke_install_direct ids own id peer tx g).hub_out ≡ g.hub_out
  unfolding spoke_install_direct
  installed_out id peer tx g = elim (Bool-cases (is_ours own peer)) [
    | inl t ↦ rw t refl
    | inr t ↦ rw t refl
  ]

  lookup-installed :
      (id : NodeId) (peer : OwnVips) (tx : Out) (g : SpokeMesh NodeId Out) (pkt : Bytes)
      → is_ours own peer ≡ false
      → is_at ipv4_eq g.hub_vip peer.v4 ≡ false
      → ipv4_dst pkt ≡ some peer.v4
      → lookup_out (spoke_install_direct ids own id peer tx g) pkt ≡ some tx
  unfolding lookup_out
  lookup-installed id peer tx g pkt h apart d =
      rw (lookup_out, d, installed_hub id peer tx g, apart, installed_at id peer tx g h) refl

  lookup-closed :
      (peer : OwnVips) (g : SpokeMesh NodeId Out) (pkt : Bytes)
      → is_at ipv4_eq g.hub_vip peer.v4 ≡ false
      → ipv4_dst pkt ≡ some peer.v4
      → vip_in_mesh peer.v4 ≡ true
      → lookup_out (direct_closed peer g) pkt ≡ g.hub_out
  unfolding lookup_out direct_closed
  lookup-closed peer g pkt apart d m =
      rw (lookup_out, d, apart, get-remove_same v4_keys g.direct peer.v4, m) refl

  -- When a peer has two direct links one after the other, its packets go to the second; the end of
  -- the first then takes the second's route away, and they go to the hub, though the second link is
  -- still there.
  pub direct_closed-drops_newer :
      (id : NodeId) (peer : OwnVips) (older newer : Out) (g : SpokeMesh NodeId Out) (pkt : Bytes)
      → is_ours own peer ≡ false
      → is_at ipv4_eq g.hub_vip peer.v4 ≡ false
      → ipv4_dst pkt ≡ some peer.v4
      → vip_in_mesh peer.v4 ≡ true
      → (lookup_out
            (spoke_install_direct ids own id peer newer
              (spoke_install_direct ids own id peer older g))
            pkt
          ≡ some newer)
        × (lookup_out
              (direct_closed peer (
                spoke_install_direct ids own id peer newer
                  (spoke_install_direct ids own id peer older g)))
              pkt
            ≡ g.hub_out)
  direct_closed-drops_newer id peer older newer g pkt h apart d m =
      let once = spoke_install_direct ids own id peer older g in
      let kept_once : is_at ipv4_eq once.hub_vip peer.v4 ≡ false =
        rw (installed_hub id peer older g) apart in
      let twice = spoke_install_direct ids own id peer newer once in
      let kept : is_at ipv4_eq twice.hub_vip peer.v4 ≡ false =
        rw (installed_hub id peer newer once) kept_once in
      (
        lookup-installed id peer newer once pkt h kept_once d,
        lookup-closed peer twice pkt kept d m
            ∙ installed_out id peer newer once
            ∙ installed_out id peer older g,
      )

module _ {NodeId Out : Type 0} (ids : Endpoints NodeId) (own_id : NodeId) (own : OwnVips)
    (allow : Option (List NodeId)) where
  -- An allowed peer with a smaller id that dials in gets the route to the IPv4 address that it
  -- announces, when that is neither the spoke's nor the hub's: another peer that the roster has at
  -- this address loses it.
  pub inbound_direct-takes_route :
      (peer : NodeId) (vip : OwnVips) (tx : Out) (g : SpokeMesh NodeId Out) (pkt : Bytes)
      → allowed ids allow peer ≡ true
      → should_dial ids own_id peer ≡ false
      → is_ours own vip ≡ false
      → is_at ipv4_eq g.hub_vip vip.v4 ≡ false
      → ipv4_dst pkt ≡ some vip.v4
      → lookup_out (inbound_direct ids own_id own allow peer (announced vip tx) g) pkt ≡ some tx
  unfolding inbound_direct accept_inbound after_inbound
  inbound_direct-takes_route peer vip tx g pkt a s h apart d =
      rw (a, s) (lookup-installed ids own peer vip tx g pkt h apart d)

module _ {NodeId : Type 0} (ids : Endpoints NodeId) (own_id : NodeId) (own : OwnVips)
    (allow : Option (List NodeId)) where
  -- What the guards and the exchange establish.
  pub record IsExpected (entry : RosterEntry NodeId) (vip : OwnVips) (a : Ipv4Addr) : Type 0 where
    pub as_listed : (ipv4_eq vip.v4 entry.vip && ipv6_eq vip.v6 entry.vip6) ≡ true
    pub at_entry : entry.vip ≡ a
    pub permitted : allowed ids allow entry.id ≡ true
    pub our_turn : should_dial ids own_id entry.id ≡ true
    pub foreign : is_ours own vip ≡ false
