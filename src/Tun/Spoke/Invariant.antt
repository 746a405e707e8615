-- ===== src/Tun/Spoke/Invariant.antt =====
-- What holds of every table that a spoke of src/tun/spoke.rs can reach from an empty one.
use link_p2p.Prelude.{
  ◌≡◌, refl, sym, ◌∙◌, Bool, false, ◌&&◌, ◌||◌, Option, none, some, List, Bool-cases, arith, inl,
  inr,
}
use mathlib.Core.Path.{subst}
use link_p2p.Net.{Ipv4Addr, Ipv6Addr, ipv4_eq, ipv6_eq}
use link_p2p.Endpoint.{Endpoints}
use link_p2p.Roster.{RosterEntry, RosterMsg, snapshot, joined, left}
use link_p2p.Table.{get, Keys}
use link_p2p.Table.Views.{update, update_other}
use link_p2p.Tun.Live.{OwnVips}
use link_p2p.Tun.Vip.Equal.{v4_keys, v6_keys}
use link_p2p.Tun.Spoke.{
  SpokeMesh, new_mesh, clear_hub, hub_attached, Dialed, unreachable, exchange_failed, announced,
  Inbound, denied, tie_break, admitted, direct_closed, spoke_install_direct, install_announced,
  spoke_apply_roster_msg, accept_inbound, after_inbound, inbound_direct,
}
use link_p2p.Tun.Spoke.Routes.{Routes, routes, is_ours, links-learn_all, links-joined}
use link_p2p.Tun.Spoke.Steps.{
  Step, hub_up, hub_down, told, dialed, called, closed, Reach, here, next, RouteStep, keep, add,
  drop, Step-refines,
}

-- No route leads to the spoke's own addresses.
pub record IsForeign {Out : Type 0} (own : OwnVips) (r : Routes Out) : Type 0 where
  pub v4_free : r.to4 own.v4 ≡ none
  pub v6_free : r.to6 own.v6 ≡ none

-- The hub's addresses and its queue are there together.
pub data IsWhole {Out : Type 0} : Option Ipv4Addr → Option Ipv6Addr → Option Out → Type 0 where
  away : IsWhole none none none
  attached : (v4 : Ipv4Addr) (v6 : Ipv6Addr) (tx : Out) → IsWhole (some v4) (some v6) (some tx)

abbrev pub HubWhole : {NodeId Out : Type 0} → SpokeMesh NodeId Out → Type 0
HubWhole g = IsWhole g.hub_vip g.hub_vip6 g.hub_out

first_false : (a b : Bool) → (a || b) ≡ false → a ≡ false
first_false a b h = ground (arith, h)

second_false : (a b : Bool) → (a || b) ≡ false → b ≡ false
second_false a b h = ground (arith, h)

update-none :
    {K V : Type 0} (keys : Keys K) (f : K → Option V) (k j : K)
    → f j ≡ none
    → update keys f k none j ≡ none
unfolding update
update-none keys f k j h = elim (Bool-cases (keys.same k j)) [ inl e ↦ rw e refl | inr e ↦ rw e h ]

module _ {NodeId Out : Type 0} (ids : Endpoints NodeId) (own_id : NodeId) (own : OwnVips)
    (allow : Option (List NodeId)) where
  RouteStep-IsForeign :
      {r r' : Routes Out} → RouteStep ids own_id own allow r r' → IsForeign own r → IsForeign own r'
  RouteStep-IsForeign (keep r) w = w
  RouteStep-IsForeign (add r peer tx h) w =
      let apart4 = first_false (ipv4_eq peer.v4 own.v4) (ipv6_eq peer.v6 own.v6) h in
      let apart6 = second_false (ipv4_eq peer.v4 own.v4) (ipv6_eq peer.v6 own.v6) h in
      record {
        v4_free = update_other v4_keys r.to4 peer.v4 own.v4 (some tx) apart4 ∙ w.v4_free;
        v6_free = update_other v6_keys r.to6 peer.v6 own.v6 (some tx) apart6 ∙ w.v6_free;
      }
  RouteStep-IsForeign (drop r peer) w = record {
    v4_free = update-none v4_keys r.to4 peer.v4 own.v4 w.v4_free;
    v6_free = update-none v6_keys r.to6 peer.v6 own.v6 w.v6_free;
  }

  empty-IsForeign : (own' : OwnVips) → IsForeign own (routes (new_mesh {Out = Out} own_id own'))
  unfolding new_mesh get
  empty-IsForeign own' = record { v4_free = refl; v6_free = refl }

  reached-IsForeign :
      {s g : SpokeMesh NodeId Out}
      → Reach ids own_id own allow s g
      → IsForeign own (routes s)
      → IsForeign own (routes g)
  reached-IsForeign here w = w
  reached-IsForeign (next r step) w =
      RouteStep-IsForeign (Step-refines ids own_id own allow step) (reached-IsForeign r w)

  install-HubWhole :
      (id : NodeId) (peer : OwnVips) (tx : Out) (g : SpokeMesh NodeId Out)
      → HubWhole g
      → HubWhole (spoke_install_direct ids own id peer tx g)
  unfolding spoke_install_direct
  install-HubWhole id peer tx g w = elim (Bool-cases (is_ours own peer)) [
    | inl t ↦ rw t w
    | inr t ↦ rw t w
  ]

  dialed-HubWhole :
      (entry : RosterEntry NodeId) (answer : Dialed Out) (g : SpokeMesh NodeId Out)
      → HubWhole g
      → HubWhole (install_announced ids own entry answer g)
  unfolding install_announced
  dialed-HubWhole entry unreachable g w = w
  dialed-HubWhole entry exchange_failed g w = w
  dialed-HubWhole entry (announced vip tx) g w =
      elim (Bool-cases (ipv4_eq vip.v4 entry.vip && ipv6_eq vip.v6 entry.vip6)) [
        | inl t ↦ rw t (install-HubWhole entry.id vip tx g w)
        | inr t ↦ rw t w
      ]

  called-HubWhole :
      (peer : NodeId) (answer : Dialed Out) (g : SpokeMesh NodeId Out) (verdict : Inbound)
      → HubWhole g
      → HubWhole (after_inbound ids own peer g verdict answer)
  unfolding after_inbound
  called-HubWhole peer (announced vip tx) g admitted w = install-HubWhole peer vip tx g w
  called-HubWhole peer unreachable g admitted w = w
  called-HubWhole peer exchange_failed g admitted w = w
  called-HubWhole peer answer g denied w = w
  called-HubWhole peer answer g tie_break w = w

  told-HubWhole :
      (by_history : List (RosterEntry NodeId) → List (RosterEntry NodeId)) (msg : RosterMsg NodeId)
      (g : SpokeMesh NodeId Out)
      → HubWhole g
      → HubWhole (spoke_apply_roster_msg ids by_history own_id msg g).0
  unfolding spoke_apply_roster_msg
  told-HubWhole by_history (snapshot es) g w =
      subst HubWhole (sym (links-learn_all ids own_id (by_history es) g)) w
  told-HubWhole by_history (joined e) g w =
      subst HubWhole (sym (links-joined ids by_history own_id e g)) w
  told-HubWhole by_history (left e) g w = w

  Step-HubWhole :
      {g g' : SpokeMesh NodeId Out} → Step ids own_id own allow g g' → HubWhole g → HubWhole g'
  unfolding hub_attached clear_hub inbound_direct direct_closed
  Step-HubWhole (hub_up g hub_id hub tx) w = attached hub.v4 hub.v6 tx
  Step-HubWhole (hub_down g) w = away
  Step-HubWhole (told g by_history msg) w = told-HubWhole by_history msg g w
  Step-HubWhole (dialed g before entry answer h) w = dialed-HubWhole entry answer g w
  Step-HubWhole (called g peer answer) w =
      called-HubWhole peer answer g (accept_inbound ids own_id allow peer) w
  Step-HubWhole (closed g peer) w = w

  pub reached-HubWhole :
      {s g : SpokeMesh NodeId Out} → Reach ids own_id own allow s g → HubWhole s → HubWhole g
  reached-HubWhole here w = w
  reached-HubWhole (next r step) w = Step-HubWhole step (reached-HubWhole r w)

  pub new-HubWhole : HubWhole (new_mesh {Out = Out} own_id own)
  unfolding new_mesh
  new-HubWhole = away

  -- Whatever a spoke went through, no direct route leads to its own virtual IPs.
  pub Reach-IsForeign :
      {g : SpokeMesh NodeId Out}
      → Reach ids own_id own allow (new_mesh own_id own) g
      → (get v4_keys g.direct own.v4 ≡ none) × (get v6_keys g.direct6 own.v6 ≡ none)
  Reach-IsForeign r = let w = reached-IsForeign r (empty-IsForeign own) in (w.v4_free, w.v6_free)

  pub whole_out :
      {v6 : Option Ipv6Addr} {out : Option Out} (v4 : Ipv4Addr) (o4 : Option Ipv4Addr)
      → IsWhole o4 v6 out
      → o4 ≡ some v4
      → (tx : Out) × (out ≡ some tx)
  whole_out v4 none away h = absurd (ground (arith, h))
  whole_out v4 (some a) (attached b c tx) h = (tx, refl)
