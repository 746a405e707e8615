-- ===== src/Tun/Spoke/Routes.antt =====
-- The direct routes of a spoke of src/tun/spoke.rs, as two functions from addresses to send queues:
-- what they promise, and what each operation on the table does to them.
use link_p2p.Prelude.{
  ◌≡◌, refl, Bool, true, false, ◌||◌, Option, none, some, List, [], ◌∷◌, Bool-cases, inl, inr,
}
use link_p2p.Net.{Ipv4Addr, Ipv6Addr, ipv4_eq, ipv6_eq}
use link_p2p.Endpoint.{Endpoints}
use link_p2p.Roster.{RosterEntry, joined}
use link_p2p.Table.{get}
use link_p2p.Table.Views.{update, get-insert, get-remove}
use link_p2p.Tun.Live.{OwnVips}
use link_p2p.Tun.Vip.Equal.{v4_keys, v6_keys}
use link_p2p.Tun.Spoke.{
  SpokeMesh, vips_of, direct_closed, spoke_install_direct, learn_all, learn, leave,
  spoke_apply_roster_msg,
}

pub record Routes (Out : Type 0) : Type 0 where
  pub to4 : Ipv4Addr → Option Out
  pub to6 : Ipv6Addr → Option Out

abbrev pub routes : {NodeId Out : Type 0} → SpokeMesh NodeId Out → Routes Out
routes g = record { to4 = get v4_keys g.direct; to6 = get v6_keys g.direct6 }

-- Both addresses of a peer lead to its queue, or nowhere.
abbrev pub set_route : {Out : Type 0} → OwnVips → Option Out → Routes Out → Routes Out
set_route peer out r = record {
  to4 = update v4_keys r.to4 peer.v4 out;
  to6 = update v6_keys r.to6 peer.v6 out;
}

abbrev table : {Out : Type 0} → (Ipv4Addr → Option Out) → (Ipv6Addr → Option Out) → Routes Out
table f h = record { to4 = f; to6 = h }

routes_eq :
    {Out : Type 0} {f f' : Ipv4Addr → Option Out} {h h' : Ipv6Addr → Option Out}
    → f ≡ f'
    → h ≡ h'
    → table f h ≡ table f' h'
routes_eq p q = rw (p, q) refl

abbrev pub is_ours : OwnVips → OwnVips → Bool
is_ours own peer = ipv4_eq peer.v4 own.v4 || ipv6_eq peer.v6 own.v6

pub routes-direct_closed :
    {NodeId Out : Type 0} (peer : OwnVips) (g : SpokeMesh NodeId Out)
    → routes (direct_closed peer g) ≡ set_route peer none (routes g)
unfolding direct_closed
routes-direct_closed peer g =
    routes_eq (get-remove v4_keys g.direct peer.v4) (get-remove v6_keys g.direct6 peer.v6)

module _ {NodeId Out : Type 0} (ids : Endpoints NodeId) where
  pub routes-install :
      (own : OwnVips) (id : NodeId) (peer : OwnVips) (tx : Out) (g : SpokeMesh NodeId Out)
      → is_ours own peer ≡ false
      → routes (spoke_install_direct ids own id peer tx g) ≡ set_route peer (some tx) (routes g)
  unfolding spoke_install_direct
  routes-install own id peer tx g h =
      rw h (
        routes_eq (get-insert v4_keys g.direct peer.v4 tx)
          (get-insert v6_keys g.direct6 peer.v6 tx))

  pub install_ours :
      (own : OwnVips) (id : NodeId) (peer : OwnVips) (tx : Out) (g : SpokeMesh NodeId Out)
      → is_ours own peer ≡ true
      → spoke_install_direct ids own id peer tx g ≡ g
  unfolding spoke_install_direct
  install_ours own id peer tx g h = rw h refl

  pub routes-leave :
      (e : RosterEntry NodeId) (g : SpokeMesh NodeId Out)
      → routes (leave ids e g) ≡ set_route (vips_of e) none (routes g)
  routes-leave e g =
      routes_eq (get-remove v4_keys g.direct e.vip) (get-remove v6_keys g.direct6 e.vip6)

  -- Everything but the roster.
  abbrev pub links : SpokeMesh NodeId Out → SpokeMesh NodeId Out
  links g = record g { roster = [] }

  pub links-learn_all :
      (own_id : NodeId) (es : List (RosterEntry NodeId)) (g : SpokeMesh NodeId Out)
      → links (learn_all ids own_id es g).0 ≡ links g
  links-learn_all own_id [] g = refl
  links-learn_all own_id (e ∷ es) g = elim (Bool-cases (ids.same e.id own_id)) [
    | inl t ↦ rw t (links-learn_all own_id es g)
    | inr t ↦ rw t (links-learn_all own_id es (learn ids e g))
  ]

  pub links-joined :
      (by_history : List (RosterEntry NodeId) → List (RosterEntry NodeId)) (own_id : NodeId)
      (e : RosterEntry NodeId) (g : SpokeMesh NodeId Out)
      → links (spoke_apply_roster_msg ids by_history own_id (joined e) g).0 ≡ links g
  unfolding spoke_apply_roster_msg
  links-joined by_history own_id e g = elim (Bool-cases (ids.same e.id own_id)) [
    | inl t ↦ rw t refl
    | inr t ↦ rw t refl
  ]
