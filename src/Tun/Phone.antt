-- ===== src/Tun/Phone.antt =====
-- src/tun/phone.rs: the active peers of a phone, the calls that ring, and where a packet goes. A
-- peer's connection and send queue are no part of the tables here.
pub mod Sessions
pub mod Calls
use link_p2p.Prelude.{
  ℕ, ◌-◌, Bool, true, false, ◌&&◌, ◌||◌, not, Option, none, some, List, [], ◌∷◌, ltb, if◌then◌else◌,
}
use link_p2p.Net.{Bytes, Ipv4Addr, Ipv6Addr, ipv4_eq, ipv6_eq}
use link_p2p.Outcome.{Msg, Result, ok, err, root}
use link_p2p.TunCtl.{CtlPeer, PendingCall}
use link_p2p.Table.{Keys, get, insert, contains_key, values, ArcSwap}
use link_p2p.Tun.Live.{OwnVips, TunLiveState, set_peers, set_pending_calls, phone_reconcile}
use link_p2p.Tun.Vip.{vip_in_mesh, vip6_in_mesh}
use link_p2p.Tun.Packet.{ipv4_dst, ipv4_src, ipv6_dst, ipv6_src}

-- `since` is the instant of a monotonic clock, in milliseconds.
pub record Ringing (NodeId : Type 0) : Type 0 where
  pub peer : NodeId
  pub since : ℕ
  pub since_unix_ms : ℕ

pub record ActivePeer (NodeId : Type 0) : Type 0 where
  pub id : NodeId
  pub vip : Ipv4Addr
  pub vip6 : Ipv6Addr

-- `RING_TIMEOUT`, in milliseconds.
abbrev pub ring_timeout : ℕ
ring_timeout = 120000

unfoldable pub any_vip : {NodeId : Type 0} → Ipv4Addr → Ipv6Addr → List (ActivePeer NodeId) → Bool
any_vip vip vip6 [] = false
any_vip vip vip6 (p ∷ ps) = (ipv4_eq p.vip vip || ipv6_eq p.vip6 vip6) || any_vip vip vip6 ps

module _ {NodeId : Type 0} (ids : Keys NodeId) where
  -- The closure of the claim in `phone_run_peer`.
  unfoldable pub claim_active :
      ActivePeer NodeId → List (NodeId × ActivePeer NodeId) → List (NodeId × ActivePeer NodeId)
  unfolding any_vip
  claim_active peer map =
      if contains_key ids map peer.id || any_vip peer.vip peer.vip6 (values map)
      then map
      else insert ids map peer.id peer

  abbrev pub holds : ActivePeer NodeId → Option (ActivePeer NodeId) → Bool
  holds peer none = false
  holds peer (some p) = ipv4_eq p.vip peer.vip && ipv6_eq p.vip6 peer.vip6

  -- The claim as it is written: its verdict is on the value that `rcu` returns.
  unfoldable pub phone_claim :
      (swap : ArcSwap (List (NodeId × ActivePeer NodeId)))
      → ActivePeer NodeId
      → swap.Cell
      → Result (Unit {0}) × swap.Cell
  unfolding claim_active
  phone_claim swap peer peers =
      let after = swap.rcu (claim_active peer) peers in
      (if holds peer (get ids after.0 peer.id) then ok tt else err (root Msg.vip_claimed), after.1)

-- `values().find(…)`
unfoldable pub find_peer :
    {NodeId : Type 0}
    → (ActivePeer NodeId → Bool)
    → List (ActivePeer NodeId)
    → Option (ActivePeer NodeId)
find_peer test [] = none
find_peer test (p ∷ ps) = let rest = find_peer test ps in if test p then some p else rest

abbrev by_destination :
    {NodeId : Type 0}
    → OwnVips
    → List (ActivePeer NodeId)
    → Option Ipv4Addr
    → Option Ipv6Addr
    → Option (ActivePeer NodeId)
by_destination own ps (some dst) dst6 =
    if ipv4_eq dst own.v4 || not (vip_in_mesh dst)
    then none
    else find_peer (λ p. ipv4_eq p.vip dst) ps
by_destination own ps none (some dst) =
    if ipv6_eq dst own.v6 || not (vip6_in_mesh dst)
    then none
    else find_peer (λ p. ipv6_eq p.vip6 dst) ps
by_destination own ps none none = none

-- The peer that a packet from the local TUN is sent to.
unfoldable pub phone_tun_to_peer :
    {NodeId : Type 0}
    → OwnVips
    → List (NodeId × ActivePeer NodeId)
    → Bytes
    → Option (ActivePeer NodeId)
unfolding find_peer
phone_tun_to_peer own map pkt = by_destination own (values map) (ipv4_dst pkt) (ipv6_dst pkt)

-- `address.map(test).unwrap_or(false)`
abbrev address_is : {A : Type 0} → (A → Bool) → Option A → Bool
address_is test none = false
address_is test (some a) = test a

-- Whether a datagram from the peer with the addresses `peer` goes to the local TUN.
unfoldable pub phone_peer_to_tun : OwnVips → OwnVips → Bytes → Bool
phone_peer_to_tun own peer pkt =
    let ok_src =
      address_is (λ s. ipv4_eq s peer.v4) (ipv4_src pkt)
      || address_is (λ s. ipv6_eq s peer.v6) (ipv6_src pkt) in
    let for_us =
      address_is (λ d. ipv4_eq d own.v4) (ipv4_dst pkt)
      || address_is (λ d. ipv6_eq d own.v6) (ipv6_dst pkt) in
    ok_src && for_us

-- `position(…).map(|i| list.remove(i))`: the call that was taken, and the list without it.
unfoldable pub take_ringing :
    {NodeId : Type 0}
    → (NodeId → Bool)
    → List (Ringing NodeId)
    → Option (Ringing NodeId) × List (Ringing NodeId)
take_ringing matches [] = (none, [])
take_ringing matches (r ∷ rs) =
    let rest = take_ringing matches rs in
    if matches r.peer then (some r, rs) else (rest.0, r ∷ rest.1)

-- `retain`, at the instant `now`.
unfoldable pub tick : {NodeId : Type 0} → ℕ → List (Ringing NodeId) → List (Ringing NodeId)
tick now [] = []
tick now (r ∷ rs) =
    let rest = tick now rs in if ltb ring_timeout (now - r.since) then rest else r ∷ rest

-- "in"
abbrev pub inbound : Bytes
inbound = b'i' ∷ b'n' ∷ []

unfoldable pub pending_of :
    {NodeId : Type 0} → (NodeId → Bytes) → List (Ringing NodeId) → List PendingCall
pending_of show [] = []
pending_of show (r ∷ rs) =
    record { peer = show r.peer; since_unix_ms = r.since_unix_ms; direction = inbound }
    ∷ pending_of show rs

-- `show` is the text of an id.
unfoldable pub publish_pending :
    {NodeId : Type 0} → (NodeId → Bytes) → TunLiveState → List (Ringing NodeId) → TunLiveState
unfolding pending_of
publish_pending show state ringing = set_pending_calls state (pending_of show ringing)

unfoldable pub peers_of :
    {NodeId : Type 0} → (NodeId → Bytes) → List (ActivePeer NodeId) → List CtlPeer
peers_of show [] = []
peers_of show (p ∷ ps) = record { vip = p.vip; vip6 = p.vip6; id = show p.id } ∷ peers_of show ps

unfoldable pub refresh_active_peers :
    {NodeId : Type 0}
    → (NodeId → Bytes)
    → TunLiveState
    → List (NodeId × ActivePeer NodeId)
    → TunLiveState
unfolding peers_of
refresh_active_peers show state map = set_peers state (peers_of show (values map))

-- `CallCmd::Reject`: the call that is closed, the list that still rings, and the snapshot.
unfoldable pub reject_call :
    {NodeId P : Type 0}
    → (NodeId → Bytes)
    → (NodeId → Bool)
    → List P
    → List (Ringing NodeId)
    → TunLiveState
    → Option (Ringing NodeId) × List (Ringing NodeId) × TunLiveState
unfolding take_ringing publish_pending
reject_call show matches peers ringing state =
    let taken = take_ringing matches ringing in
    let published = publish_pending show state taken.1 in
    elim taken.0 [
      | none ↦ (none, taken.1, published)
      | some r ↦ (some r, taken.1, phone_reconcile published peers taken.1)
    ]
