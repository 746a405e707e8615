-- ===== src/Tun/Phone/Sessions.antt =====
-- The claim of a phone session in src/tun/phone.rs.
use link_p2p.Prelude.{◌≡◌, refl, false, none, some, List}
use link_p2p.Outcome.{Msg, err, root}
use link_p2p.Table.{Keys, get, values, ArcSwap}
use link_p2p.Table.Lookups.{get-insert_same, contains_key-none}
use link_p2p.Tun.Phone.{ActivePeer, any_vip, claim_active, phone_claim}

-- When the peer is not active yet and no active peer has one of its addresses, its claim is refused
-- as one of an address that another peer holds, and yet the peer stands among the active peers
-- afterwards.
pub phone_claim-first :
    {NodeId : Type 0} (ids : Keys NodeId) (swap : ArcSwap (List (NodeId × ActivePeer NodeId)))
    (peer : ActivePeer NodeId) (cell : swap.Cell)
    → get ids (swap.load cell) peer.id ≡ none
    → any_vip peer.vip peer.vip6 (values (swap.load cell)) ≡ false
    → ((phone_claim ids swap peer cell).0 ≡ err (root Msg.vip_claimed))
      × (get ids (swap.load (phone_claim ids swap peer cell).1) peer.id ≡ some peer)
unfolding phone_claim claim_active
phone_claim-first ids swap peer cell fresh free =
    let absent = contains_key-none ids (swap.load cell) peer.id fresh in
    (
      rw (swap.rcu-returns (claim_active ids peer) cell, fresh) refl,
      rw (swap.rcu-stores (claim_active ids peer) cell, absent, free)
          (get-insert_same ids (swap.load cell) peer.id peer),
    )
