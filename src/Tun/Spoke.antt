-- ===== src/Tun/Spoke.antt =====
-- src/tun/spoke.rs: the mesh table of a spoke, the hub's messages that change it, and where a packet
-- goes. `Out` stands for the send queue of a connection, and an allow list is the list of its ids.
-- `mesh_update` stores what its closure makes of the table, so a closure is a function on tables here.
pub mod Routes
pub mod Steps
pub mod Invariant
pub mod Delivery
pub mod Links
use link_p2p.Prelude.{
  ℕ, Bool, true, false, ◌&&◌, ◌||◌, not, Option, none, some, List, [], ◌∷◌, ltb, if◌then◌else◌,
}
use link_p2p.Net.{Bytes, Ipv4Addr, Ipv6Addr, ipv4_eq, ipv6_eq}
use link_p2p.Outcome.{Msg, Result, ok, err, root}
use link_p2p.Endpoint.{Endpoints}
use link_p2p.Roster.{RosterEntry, RosterMsg, snapshot, joined, left, should_dial}
use link_p2p.Table.{Keys, get, insert, remove, contains_key}
use link_p2p.Backoff.{Backoff, after_session}
use link_p2p.Tun.Live.{OwnVips}
use link_p2p.Tun.Vip.{vip_in_mesh, vip6_in_mesh}
use link_p2p.Tun.Vip.Equal.{v4_keys, v6_keys}
use link_p2p.Tun.Packet.{ipv4_dst, ipv4_src, ipv6_dst, ipv6_src}

pub record SpokeMesh (NodeId Out : Type 0) : Type 0 where
  pub own_id : NodeId
  pub own : OwnVips
  pub hub_vip : Option Ipv4Addr
  pub hub_vip6 : Option Ipv6Addr
  pub hub_out : Option Out
  pub direct : List (Ipv4Addr × Out)
  pub direct6 : List (Ipv6Addr × Out)
  pub roster : List (NodeId × OwnVips)

unfoldable pub new_mesh : {NodeId Out : Type 0} → NodeId → OwnVips → SpokeMesh NodeId Out
new_mesh own_id own = record {
  own_id = own_id;
  own = own;
  hub_vip = none;
  hub_vip6 = none;
  hub_out = none;
  direct = [];
  direct6 = [];
  roster = [];
}

unfoldable pub clear_hub : {NodeId Out : Type 0} → SpokeMesh NodeId Out → SpokeMesh NodeId Out
clear_hub g = record g { hub_vip = none; hub_vip6 = none; hub_out = none }

-- `self.hub_vip == Some(dst)`
abbrev pub is_at : {A : Type 0} → (A → A → Bool) → Option A → A → Bool
is_at same none dst = false
is_at same (some a) dst = same a dst

-- One address family of `lookup_out`: `hub` tells whether the hub is at the destination.
abbrev pub route : {Out : Type 0} → Bool → Option Out → Bool → Option Out → Option Out
route hub direct in_mesh hub_out =
    if hub
    then hub_out
    else elim direct [ some tx ↦ some tx | none ↦ if in_mesh then hub_out else none ]

unfoldable pub lookup_out : {NodeId Out : Type 0} → SpokeMesh NodeId Out → Bytes → Option Out
lookup_out g pkt = elim (ipv4_dst pkt) [
  | some dst ↦
      route (is_at ipv4_eq g.hub_vip dst) (get v4_keys g.direct dst) (vip_in_mesh dst) g.hub_out
  | none ↦ elim (ipv6_dst pkt) [
    | some dst ↦
        route (is_at ipv6_eq g.hub_vip6 dst) (get v6_keys g.direct6 dst) (vip6_in_mesh dst)
          g.hub_out
    | none ↦ none
  ]
]

unfoldable pub packet_is_own : Bytes → OwnVips → Bool
packet_is_own pkt own = elim (ipv4_dst pkt) [
  | some dst ↦ ipv4_eq dst own.v4
  | none ↦ elim (ipv6_dst pkt) [ some dst ↦ ipv6_eq dst own.v6 | none ↦ false ]
]

-- The loop over packets from the local TUN: the queue that a packet is put in.
unfoldable pub tun_to_mesh :
    {NodeId Out : Type 0} → SpokeMesh NodeId Out → OwnVips → Bytes → Option Out
unfolding lookup_out packet_is_own
tun_to_mesh g own pkt = if packet_is_own pkt own then none else lookup_out g pkt

-- Whether a datagram from the hub goes to the local TUN.
unfoldable pub hub_to_tun : OwnVips → Bytes → Bool
hub_to_tun hub pkt = elim (ipv4_src pkt) [
  | some src ↦ vip_in_mesh src || ipv4_eq src hub.v4
  | none ↦ elim (ipv6_src pkt) [ some src ↦ vip6_in_mesh src || ipv6_eq src hub.v6 | none ↦ false ]
]

-- Whether a datagram on a direct link does.
unfoldable pub direct_to_tun : OwnVips → Bytes → Bool
direct_to_tun peer pkt =
    elim (ipv4_src pkt) [ some s ↦ ipv4_eq s peer.v4 | none ↦ false ]
    || elim (ipv6_src pkt) [ some s ↦ ipv6_eq s peer.v6 | none ↦ false ]

-- The end of the reader of a direct link.
unfoldable pub direct_closed :
    {NodeId Out : Type 0} → OwnVips → SpokeMesh NodeId Out → SpokeMesh NodeId Out
direct_closed peer g = record g {
  direct = remove v4_keys g.direct peer.v4;
  direct6 = remove v6_keys g.direct6 peer.v6;
}

abbrev pub vips_of : {NodeId : Type 0} → RosterEntry NodeId → OwnVips
vips_of e = record { v4 = e.vip; v6 = e.vip6 }

-- What a connection to the peer gave: none, an exchange that failed, or the peer's addresses and
-- the queue of the new link.
pub data Dialed (Out : Type 0) : Type 0 where
  unreachable exchange_failed : Dialed Out
  announced : OwnVips → Out → Dialed Out

-- An inbound TUN connection.
pub data Inbound : Type 0 where
  denied tie_break admitted : Inbound

module _ {NodeId : Type 0} (ids : Endpoints NodeId) where
  abbrev pub id_keys : Keys NodeId
  id_keys = record { same = ids.same; same_iff = ids.same_iff }

  abbrev pub listed : List NodeId → NodeId → Bool
  listed [] peer = false
  listed (i ∷ is) peer = ids.same i peer || listed is peer

  unfoldable pub check_allow : Option (List NodeId) → NodeId → Result (Unit {0})
  check_allow none peer = ok tt
  check_allow (some set) peer = if listed set peer then ok tt else err (root Msg.not_in_allow_list)

  unfoldable pub allowed : Option (List NodeId) → NodeId → Bool
  unfolding check_allow
  allowed allow peer = elim (check_allow allow peer) [ ok _ ↦ true | err _ ↦ false ]

  -- The update of a session with the hub.
  unfoldable pub hub_attached :
      {Out : Type 0} → NodeId → OwnVips → Out → SpokeMesh NodeId Out → SpokeMesh NodeId Out
  hub_attached hub_id hub hub_tx g = record g {
    hub_vip = some hub.v4;
    hub_vip6 = some hub.v6;
    hub_out = some hub_tx;
    roster = insert id_keys g.roster hub_id hub;
  }

  unfoldable pub spoke_install_direct :
      {Out : Type 0}
      → OwnVips
      → NodeId
      → OwnVips
      → Out
      → SpokeMesh NodeId Out
      → SpokeMesh NodeId Out
  spoke_install_direct own peer_id peer tx g =
      if ipv4_eq peer.v4 own.v4 || ipv6_eq peer.v6 own.v6 then g else record g {
        roster = insert id_keys g.roster peer_id peer;
        direct = insert v4_keys g.direct peer.v4 tx;
        direct6 = insert v6_keys g.direct6 peer.v6 tx;
      }

  -- The guards of `spoke_try_dial_peer_inner`, on the table that it loads before it connects.
  unfoldable pub wants_dial :
      {Out : Type 0}
      → NodeId
      → OwnVips
      → Option (List NodeId)
      → RosterEntry NodeId
      → SpokeMesh NodeId Out
      → Bool
  unfolding allowed
  wants_dial own_id own allow entry g =
      if ids.same entry.id own_id || ipv4_eq entry.vip own.v4 || ipv6_eq entry.vip6 own.v6
      then false
      else if not (allowed allow entry.id)
      then false
      else if not (should_dial ids own_id entry.id)
      then false
      else not (contains_key v4_keys g.direct entry.vip)

  unfoldable pub install_announced :
      {Out : Type 0}
      → OwnVips
      → RosterEntry NodeId
      → Dialed Out
      → SpokeMesh NodeId Out
      → SpokeMesh NodeId Out
  unfolding spoke_install_direct
  install_announced own entry unreachable g = g
  install_announced own entry exchange_failed g = g
  install_announced own entry (announced vip tx) g =
      if ipv4_eq vip.v4 entry.vip && ipv6_eq vip.v6 entry.vip6
      then spoke_install_direct own entry.id vip tx g
      else g

  -- `others` is what other tasks do to the table while the connection is made.
  unfoldable pub spoke_try_dial_peer :
      {Out : Type 0}
      → NodeId
      → OwnVips
      → Option (List NodeId)
      → RosterEntry NodeId
      → Dialed Out
      → (SpokeMesh NodeId Out → SpokeMesh NodeId Out)
      → SpokeMesh NodeId Out
      → SpokeMesh NodeId Out
  unfolding wants_dial install_announced
  spoke_try_dial_peer own_id own allow entry answer others g =
      if wants_dial own_id own allow entry g
      then install_announced own entry answer (others g)
      else g

  -- `g.roster.insert` for an entry, unless it is the spoke's own.
  abbrev pub learn :
      {Out : Type 0} → RosterEntry NodeId → SpokeMesh NodeId Out → SpokeMesh NodeId Out
  learn e g = record g { roster = insert id_keys g.roster e.id (vips_of e) }

  abbrev pub learn_all :
      {Out : Type 0}
      → NodeId
      → List (RosterEntry NodeId)
      → SpokeMesh NodeId Out
      → SpokeMesh NodeId Out × List (RosterEntry NodeId)
  learn_all own_id [] g = (g, [])
  learn_all own_id (e ∷ es) g =
      let skipped = learn_all own_id es g in
      let rest = learn_all own_id es (learn e g) in
      if ids.same e.id own_id then skipped else (rest.0, e ∷ rest.1)

  abbrev pub leave :
      {Out : Type 0} → RosterEntry NodeId → SpokeMesh NodeId Out → SpokeMesh NodeId Out
  leave e g = record g {
    roster = remove id_keys g.roster e.id;
    direct = remove v4_keys g.direct e.vip;
    direct6 = remove v6_keys g.direct6 e.vip6;
  }

  -- The new table and the entries that a task is spawned to dial. `by_history` is the soft order of
  -- src/path_stats.rs.
  unfoldable pub spoke_apply_roster_msg :
      {Out : Type 0}
      → (List (RosterEntry NodeId) → List (RosterEntry NodeId))
      → NodeId
      → RosterMsg NodeId
      → SpokeMesh NodeId Out
      → SpokeMesh NodeId Out × List (RosterEntry NodeId)
  spoke_apply_roster_msg by_history own_id (snapshot entries) g =
      learn_all own_id (by_history entries) g
  spoke_apply_roster_msg by_history own_id (joined e) g =
      if ids.same e.id own_id then (g, []) else (learn e g, e ∷ [])
  spoke_apply_roster_msg by_history own_id (left e) g = (leave e g, [])

  unfoldable pub accept_inbound : NodeId → Option (List NodeId) → NodeId → Inbound
  unfolding allowed
  accept_inbound own_id allow peer =
      if not (allowed allow peer)
      then denied
      else if should_dial ids own_id peer
      then tie_break
      else admitted

  unfoldable pub after_inbound :
      {Out : Type 0}
      → OwnVips
      → NodeId
      → SpokeMesh NodeId Out
      → Inbound
      → Dialed Out
      → SpokeMesh NodeId Out
  unfolding spoke_install_direct
  after_inbound own peer g admitted (announced vip tx) = spoke_install_direct own peer vip tx g
  after_inbound own peer g _ _ = g

  unfoldable pub inbound_direct :
      {Out : Type 0}
      → NodeId
      → OwnVips
      → Option (List NodeId)
      → NodeId
      → Dialed Out
      → SpokeMesh NodeId Out
      → SpokeMesh NodeId Out
  unfolding accept_inbound after_inbound
  inbound_direct own_id own allow peer answer g =
      after_inbound own peer g (accept_inbound own_id allow peer) answer

-- The wait before the next session with the hub, in milliseconds.
unfoldable pub reconnect_delay : ℕ → ℕ → ℕ → Backoff → ℕ × Backoff
unfolding after_session
reconnect_delay reconnect_base lived min_stable b = elim (after_session lived min_stable b).0 [
  | some next ↦ (next, (after_session lived min_stable b).1)
  | none ↦ (reconnect_base, (after_session lived min_stable b).1)
]
