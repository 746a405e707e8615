-- ===== src/Tun/Spoke/Steps.antt =====
-- What can happen to the table of a spoke of src/tun/spoke.rs, in any order, and what always holds.
use link_p2p.Prelude.{
  ◌≡◌, sym, ap, true, false, ◌&&◌, Option, none, some, List, Bool-cases, inl, inr,
}
use mathlib.Core.Path.{subst}
use link_p2p.Net.{ipv4_eq, ipv6_eq}
use link_p2p.Endpoint.{Endpoints}
use link_p2p.Roster.{RosterEntry, RosterMsg, snapshot, joined, left}
use link_p2p.Tun.Live.{OwnVips}
use link_p2p.Tun.Spoke.{
  SpokeMesh, clear_hub, hub_attached, Dialed, unreachable, exchange_failed, announced, Inbound,
  denied, tie_break, admitted, vips_of, direct_closed, spoke_install_direct, wants_dial,
  install_announced, spoke_apply_roster_msg, accept_inbound, after_inbound, inbound_direct,
}
use link_p2p.Tun.Spoke.Routes.{
  Routes, routes, set_route, is_ours, routes-direct_closed, routes-install, install_ours,
  routes-leave, links-learn_all, links-joined,
}

module _ {NodeId Out : Type 0} (ids : Endpoints NodeId) (own_id : NodeId) (own : OwnVips)
    (allow : Option (List NodeId)) where
  -- A session with the hub starts or ends, the hub sends a message, a dial that some earlier table
  -- wanted comes to its end, a peer dials in, or a direct link ends.
  pub data Step : SpokeMesh NodeId Out → SpokeMesh NodeId Out → Type 0 where
    hub_up :
        (g : SpokeMesh NodeId Out) (hub_id : NodeId) (hub : OwnVips) (tx : Out)
        → Step g (hub_attached ids hub_id hub tx g)
    hub_down : (g : SpokeMesh NodeId Out) → Step g (clear_hub g)
    told :
        (g : SpokeMesh NodeId Out)
        (by_history : List (RosterEntry NodeId) → List (RosterEntry NodeId))
        (msg : RosterMsg NodeId)
        → Step g (spoke_apply_roster_msg ids by_history own_id msg g).0
    dialed :
        (g before : SpokeMesh NodeId Out) (entry : RosterEntry NodeId) (answer : Dialed Out)
        → wants_dial ids own_id own allow entry before ≡ true
        → Step g (install_announced ids own entry answer g)
    called :
        (g : SpokeMesh NodeId Out) (peer : NodeId) (answer : Dialed Out)
        → Step g (inbound_direct ids own_id own allow peer answer g)
    closed : (g : SpokeMesh NodeId Out) (peer : OwnVips) → Step g (direct_closed peer g)

  pub data Reach (s : SpokeMesh NodeId Out) : SpokeMesh NodeId Out → Type 0 where
    here : Reach s s
    next : {t u : SpokeMesh NodeId Out} → Reach s t → Step t u → Reach s u

  -- The specification: a route appears to an address that is not the spoke's own, or a peer's routes
  -- disappear.
  pub data RouteStep : Routes Out → Routes Out → Type 0 where
    keep : (r : Routes Out) → RouteStep r r
    add :
        (r : Routes Out) (peer : OwnVips) (tx : Out)
        → is_ours own peer ≡ false
        → RouteStep r (set_route peer (some tx) r)
    drop : (r : Routes Out) (peer : OwnVips) → RouteStep r (set_route peer none r)

  install-refines :
      (id : NodeId) (peer : OwnVips) (tx : Out) (g : SpokeMesh NodeId Out)
      → RouteStep (routes g) (routes (spoke_install_direct ids own id peer tx g))
  install-refines id peer tx g = elim (Bool-cases (is_ours own peer)) [
    | inl t ↦ rw (install_ours ids own id peer tx g t) (keep (routes g))
    | inr t ↦ rw (routes-install ids own id peer tx g t) (add (routes g) peer tx t)
  ]

  dialed-refines :
      (entry : RosterEntry NodeId) (answer : Dialed Out) (g : SpokeMesh NodeId Out)
      → RouteStep (routes g) (routes (install_announced ids own entry answer g))
  unfolding install_announced
  dialed-refines entry unreachable g = keep (routes g)
  dialed-refines entry exchange_failed g = keep (routes g)
  dialed-refines entry (announced vip tx) g =
      elim (Bool-cases (ipv4_eq vip.v4 entry.vip && ipv6_eq vip.v6 entry.vip6)) [
        | inl t ↦ rw t (install-refines entry.id vip tx g)
        | inr t ↦ rw t (keep (routes g))
      ]

  after_inbound-refines :
      (peer : NodeId) (answer : Dialed Out) (g : SpokeMesh NodeId Out) (verdict : Inbound)
      → RouteStep (routes g) (routes (after_inbound ids own peer g verdict answer))
  unfolding after_inbound
  after_inbound-refines peer (announced vip tx) g admitted = install-refines peer vip tx g
  after_inbound-refines peer unreachable g admitted = keep (routes g)
  after_inbound-refines peer exchange_failed g admitted = keep (routes g)
  after_inbound-refines peer answer g denied = keep (routes g)
  after_inbound-refines peer answer g tie_break = keep (routes g)

  told-refines :
      (by_history : List (RosterEntry NodeId) → List (RosterEntry NodeId)) (msg : RosterMsg NodeId)
      (g : SpokeMesh NodeId Out)
      → RouteStep (routes g) (routes (spoke_apply_roster_msg ids by_history own_id msg g).0)
  unfolding spoke_apply_roster_msg
  told-refines by_history (snapshot es) g =
      let same = ap routes (links-learn_all ids own_id (by_history es) g) in
      subst (RouteStep (routes g)) (sym same) (keep (routes g))
  told-refines by_history (joined e) g =
      let same = ap routes (links-joined ids by_history own_id e g) in
      subst (RouteStep (routes g)) (sym same) (keep (routes g))
  told-refines by_history (left e) g = rw (routes-leave ids e g) (drop (routes g) (vips_of e))

  pub Step-refines : {g g' : SpokeMesh NodeId Out} → Step g g' → RouteStep (routes g) (routes g')
  unfolding hub_attached clear_hub inbound_direct
  Step-refines (hub_up g hub_id hub tx) = keep (routes g)
  Step-refines (hub_down g) = keep (routes g)
  Step-refines (told g by_history msg) = told-refines by_history msg g
  Step-refines (dialed g before entry answer h) = dialed-refines entry answer g
  Step-refines (called g peer answer) =
      after_inbound-refines peer answer g (accept_inbound ids own_id allow peer)
  Step-refines (closed g peer) = rw (routes-direct_closed peer g) (drop (routes g) peer)
