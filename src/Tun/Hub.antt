-- ===== src/Tun/Hub.antt =====
-- src/tun/hub.rs: the peers of a hub, who may take which virtual IP, and where a packet goes. A
-- peer's connection and send queue are no part of the index here: where the source enqueues a packet
-- to a peer, the model returns that peer.
pub mod Claims
pub mod Owners
pub mod Routing
use link_p2p.Prelude.{
  ℕ, ◌≡◌, ◌↔◌, refl, ap, Bool, true, false, ◌&&◌, ◌||◌, not, Option, none, some, List, [], ◌∷◌,
  ◌==◌, if◌then◌else◌,
}
use link_p2p.Net.{Bytes, Ipv4Addr, Ipv6Addr, ipv4_eq, ipv6_eq}
use link_p2p.Outcome.{Msg, Result, ok, err, root}
use link_p2p.Endpoint.{Endpoints}
use link_p2p.Roster.{RosterEntry}
use link_p2p.Table.{Keys, get, insert, remove, contains_key, values, ArcSwap}
use link_p2p.Tun.Live.{OwnVips}
use link_p2p.Tun.Vip.{vip_in_mesh, vip6_in_mesh}
use link_p2p.Tun.Vip.Equal.{v4_keys, v6_keys}
use link_p2p.Tun.Packet.{ipv4_dst, ipv4_src, ipv6_dst, ipv6_src}

pub record HubPeer (NodeId : Type 0) : Type 0 where
  pub id : NodeId
  pub session : ℕ
  pub vip : Ipv4Addr
  pub vip6 : Ipv6Addr
  pub hidden : Bool

pub record HubPeerIndex (NodeId : Type 0) : Type 0 where
  pub by_v4 : List (Ipv4Addr × HubPeer NodeId)
  pub by_v6 : List (Ipv6Addr × HubPeer NodeId)

-- `slot.map(test).unwrap_or(false)`
abbrev pub slot_is : {A : Type 0} → (A → Bool) → Option A → Bool
slot_is test none = false
slot_is test (some a) = test a

module _ {NodeId : Type 0} (ids : Endpoints NodeId) where
  -- Another peer holds the slot, or the peer itself does.
  abbrev pub foreign : HubPeer NodeId → Option (HubPeer NodeId) → Bool
  foreign peer slot = slot_is (λ p. not (ids.same p.id peer.id)) slot

  abbrev pub mine : HubPeer NodeId → Option (HubPeer NodeId) → Bool
  mine peer slot = slot_is (λ p. ids.same p.id peer.id) slot

  -- The closure of `try_claim_peer`.
  unfoldable pub claim_index : HubPeer NodeId → HubPeerIndex NodeId → HubPeerIndex NodeId
  claim_index peer idx =
      if foreign peer (get v4_keys idx.by_v4 peer.vip)
        || foreign peer (get v6_keys idx.by_v6 peer.vip6)
      then idx
      else record {
        by_v4 = insert v4_keys idx.by_v4 peer.vip peer;
        by_v6 = insert v6_keys idx.by_v6 peer.vip6 peer;
      }

  -- Its verdict on the index that it loads afterwards.
  unfoldable pub claim_verdict : HubPeer NodeId → HubPeerIndex NodeId → Result (Unit {0})
  claim_verdict peer after =
      if mine peer (get v4_keys after.by_v4 peer.vip) then ok tt else err (root Msg.vip_claimed)

  -- `others` is what other tasks do to the cell between the two steps.
  unfoldable pub try_claim_peer :
      (swap : ArcSwap (HubPeerIndex NodeId))
      → (swap.Cell → swap.Cell)
      → HubPeer NodeId
      → swap.Cell
      → Result (Unit {0}) × swap.Cell
  unfolding claim_index claim_verdict
  try_claim_peer swap others peer peers =
      let after = others (swap.rcu (claim_index peer) peers).1 in
      (claim_verdict peer (swap.load after), after)

-- The closure of `peers_remove_if_owned`.
unfoldable pub remove_index :
    {NodeId : Type 0} → Ipv4Addr → Ipv6Addr → ℕ → HubPeerIndex NodeId → HubPeerIndex NodeId
remove_index vip vip6 session idx =
    let ours_v4 = slot_is (λ p. p.session == session) (get v4_keys idx.by_v4 vip) in
    let ours_v6 = slot_is (λ p. p.session == session) (get v6_keys idx.by_v6 vip6) in
    if not ours_v4 && not ours_v6 then idx else record {
      by_v4 = if ours_v4 then remove v4_keys idx.by_v4 vip else idx.by_v4;
      by_v6 = if ours_v6 then remove v6_keys idx.by_v6 vip6 else idx.by_v6;
    }

unfoldable pub peers_remove_if_owned :
    {NodeId : Type 0} (swap : ArcSwap (HubPeerIndex NodeId))
    → (swap.Cell → swap.Cell)
    → Ipv4Addr
    → Ipv6Addr
    → ℕ
    → swap.Cell
    → Bool × swap.Cell
unfolding remove_index
peers_remove_if_owned swap others vip vip6 session peers =
    let after = others (swap.rcu (remove_index vip vip6 session) peers).1 in
    let idx = swap.load after in
    (not (contains_key v4_keys idx.by_v4 vip) && not (contains_key v6_keys idx.by_v6 vip6), after)

abbrev pub entry_of : {NodeId : Type 0} → HubPeer NodeId → RosterEntry NodeId
entry_of p = record { vip = p.vip; vip6 = p.vip6; id = p.id }

-- `if p.hidden { continue; }`
unfoldable pub visible : {NodeId : Type 0} → List (HubPeer NodeId) → List (RosterEntry NodeId)
visible [] = []
visible (p ∷ ps) = let rest = visible ps in if p.hidden then rest else entry_of p ∷ rest

unfoldable pub hub_roster_snapshot :
    {NodeId : Type 0} → NodeId → OwnVips → HubPeerIndex NodeId → List (RosterEntry NodeId)
unfolding visible
hub_roster_snapshot own_id own idx =
    record { vip = own.v4; vip6 = own.v6; id = own_id } ∷ visible (values idx.by_v4)

-- The tests on a packet share their shape: its IPv4 address, else its IPv6 address, else nothing.
abbrev pub by_address :
    {A : Type 0} → Option Ipv4Addr → Option Ipv6Addr → (Ipv4Addr → A) → (Ipv6Addr → A) → A → A
by_address (some ip) ip6 on_v4 on_v6 otherwise = on_v4 ip
by_address none (some ip6) on_v4 on_v6 otherwise = on_v6 ip6
by_address none none on_v4 on_v6 otherwise = otherwise

unfoldable pub lookup_hub_peer :
    {NodeId : Type 0} → HubPeerIndex NodeId → Bytes → Option (HubPeer NodeId)
lookup_hub_peer idx pkt =
    by_address (ipv4_dst pkt) (ipv6_dst pkt) (λ dst. get v4_keys idx.by_v4 dst)
      (λ dst. get v6_keys idx.by_v6 dst) none

unfoldable pub packet_destined_here : Bytes → OwnVips → Bool
packet_destined_here pkt own =
    by_address (ipv4_dst pkt) (ipv6_dst pkt) (λ dst. ipv4_eq dst own.v4) (λ dst. ipv6_eq dst own.v6)
      false

unfoldable pub packet_src_matches_peer : {NodeId : Type 0} → Bytes → HubPeer NodeId → Bool
packet_src_matches_peer pkt peer =
    by_address (ipv4_src pkt) (ipv6_src pkt) (λ src. ipv4_eq src peer.vip)
      (λ src. ipv6_eq src peer.vip6) false

unfoldable pub mesh_dst_ok : {NodeId : Type 0} → Bytes → HubPeer NodeId → Bool
mesh_dst_ok pkt peer =
    by_address (ipv4_dst pkt) (ipv6_dst pkt) (λ dst. vip_in_mesh dst && not (ipv4_eq dst peer.vip))
      (λ dst. vip6_in_mesh dst && not (ipv6_eq dst peer.vip6)) false

-- What becomes of a packet.
pub data Route (NodeId : Type 0) : Type 0 where
  dropped : Route NodeId
  to_tun : Bytes → Route NodeId
  to_peer : HubPeer NodeId → Bytes → Route NodeId

abbrev pub forward : {NodeId : Type 0} → Option (HubPeer NodeId) → Bytes → Route NodeId
forward none pkt = dropped
forward (some peer) pkt = to_peer peer pkt

-- The body of the loop, for a packet from the local TUN.
unfoldable pub hub_tun_to_peers :
    {NodeId : Type 0} → OwnVips → HubPeerIndex NodeId → Bytes → Route NodeId
unfolding lookup_hub_peer packet_destined_here
hub_tun_to_peers own idx pkt =
    let skip =
      by_address (ipv4_dst pkt) (ipv6_dst pkt) (λ dst. not (vip_in_mesh dst))
        (λ dst. not (vip6_in_mesh dst)) true in
    if packet_destined_here pkt own
    then dropped
    else if skip
    then dropped
    else forward (lookup_hub_peer idx pkt) pkt

-- The body of the loop, for a datagram from `peer`.
unfoldable pub hub_peer_to_mesh :
    {NodeId : Type 0} → OwnVips → HubPeerIndex NodeId → HubPeer NodeId → Bytes → Route NodeId
unfolding lookup_hub_peer packet_destined_here packet_src_matches_peer mesh_dst_ok
hub_peer_to_mesh own idx peer pkt =
    if not (packet_src_matches_peer pkt peer)
    then dropped
    else if packet_destined_here pkt own
    then to_tun pkt
    else if not (mesh_dst_ok pkt peer)
    then dropped
    else forward (lookup_hub_peer idx pkt) pkt
