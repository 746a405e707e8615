-- ===== src/Tun/Hub/Claims.antt =====
-- What `try_claim_peer` of src/tun/hub.rs does to the index of a hub.
use link_p2p.Prelude.{
  ◌≡◌, inl, inr, refl, ◌∙◌, Bool, true, false, ◌||◌, some, All, arith, Bool-cases,
}
use link_p2p.Net.{Ipv4Addr, Ipv6Addr, ipv4_eq, ipv6_eq}
use link_p2p.Outcome.{ok}
use link_p2p.Endpoint.{Endpoints}
use link_p2p.Table.{get, ArcSwap}
use link_p2p.Table.Lookups.{get-insert_same, get-insert_other, All-insert}
use link_p2p.Tun.Vip.Equal.{v4_keys, v6_keys}
use link_p2p.Tun.Hub.{HubPeer, HubPeerIndex, foreign, claim_index, claim_verdict, try_claim_peer}

-- Whoever stands under a virtual IP announced that address.
pub record IsIndexed {NodeId : Type 0} (idx : HubPeerIndex NodeId) : Type 0 where
  pub v4_own : All (λ (e : Ipv4Addr × HubPeer NodeId). e.1.vip ≡ e.0) idx.by_v4
  pub v6_own : All (λ (e : Ipv6Addr × HubPeer NodeId). e.1.vip6 ≡ e.0) idx.by_v6

module _ {NodeId : Type 0} (ids : Endpoints NodeId) (peer : HubPeer NodeId)
    (idx : HubPeerIndex NodeId) where
  abbrev taken : Bool
  taken =
      foreign ids peer (get v4_keys idx.by_v4 peer.vip)
      || foreign ids peer (get v6_keys idx.by_v6 peer.vip6)

  -- If every entry of the index stands under the address that its peer announced, this holds after
  -- a claim as well.
  pub claim_index-IsIndexed : IsIndexed idx → IsIndexed (claim_index ids peer idx)
  unfolding claim_index
  claim_index-IsIndexed w = elim (Bool-cases taken) [
    | inl e ↦ rw e w
    | inr e ↦ rw e (record {
      v4_own =
          All-insert v4_keys (λ (e : Ipv4Addr × HubPeer NodeId). e.1.vip ≡ e.0) idx.by_v4 peer.vip
            peer refl w.v4_own;
      v6_own =
          All-insert v6_keys (λ (e : Ipv6Addr × HubPeer NodeId). e.1.vip6 ≡ e.0) idx.by_v6 peer.vip6
            peer refl w.v6_own;
    })
  ]

  keeps_v4 :
      (p : HubPeer NodeId) (ip : Ipv4Addr)
      → ids.same p.id peer.id ≡ false
      → get v4_keys idx.by_v4 ip ≡ some p
      → get v4_keys (claim_index ids peer idx).by_v4 ip ≡ some p
  unfolding claim_index
  keeps_v4 p ip apart h = elim (Bool-cases taken) [
    | inl e ↦ rw e h
    | inr e ↦ elim (Bool-cases (ipv4_eq peer.vip ip)) [
      | inl t ↦
          let key : peer.vip ≡ ip = (v4_keys.same_iff peer.vip ip).0 t in
          let slot : get v4_keys idx.by_v4 peer.vip ≡ some p = rw key h in
          absurd (ground (arith, slot, e, apart))
      | inr t ↦ rw e (get-insert_other v4_keys idx.by_v4 peer.vip ip peer t ∙ h)
    ]
  ]

  keeps_v6 :
      (p : HubPeer NodeId) (ip : Ipv6Addr)
      → ids.same p.id peer.id ≡ false
      → get v6_keys idx.by_v6 ip ≡ some p
      → get v6_keys (claim_index ids peer idx).by_v6 ip ≡ some p
  unfolding claim_index
  keeps_v6 p ip apart h = elim (Bool-cases taken) [
    | inl e ↦ rw e h
    | inr e ↦ elim (Bool-cases (ipv6_eq peer.vip6 ip)) [
      | inl t ↦
          let key : peer.vip6 ≡ ip = (v6_keys.same_iff peer.vip6 ip).0 t in
          let slot : get v6_keys idx.by_v6 peer.vip6 ≡ some p = rw key h in
          absurd (ground (arith, slot, e, apart))
      | inr t ↦ rw e (get-insert_other v6_keys idx.by_v6 peer.vip6 ip peer t ∙ h)
    ]
  ]

  -- A claim leaves the entries of a peer with another id under the addresses where they are.
  pub claim_index-keeps :
      (p : HubPeer NodeId) (ip : Ipv4Addr) (ip6 : Ipv6Addr)
      → ids.same p.id peer.id ≡ false
      → get v4_keys idx.by_v4 ip ≡ some p
      → get v6_keys idx.by_v6 ip6 ≡ some p
      → (get v4_keys (claim_index ids peer idx).by_v4 ip ≡ some p)
        × (get v6_keys (claim_index ids peer idx).by_v6 ip6 ≡ some p)
  claim_index-keeps p ip ip6 apart h4 h6 = (keeps_v4 p ip apart h4, keeps_v6 p ip6 apart h6)

  claim_index-free :
      taken ≡ false
      → (get v4_keys (claim_index ids peer idx).by_v4 peer.vip ≡ some peer)
        × (get v6_keys (claim_index ids peer idx).by_v6 peer.vip6 ≡ some peer)
  unfolding claim_index
  claim_index-free e = rw e (
    get-insert_same v4_keys idx.by_v4 peer.vip peer,
    get-insert_same v6_keys idx.by_v6 peer.vip6 peer,
  )

module _ {NodeId : Type 0} (ids : Endpoints NodeId) (swap : ArcSwap (HubPeerIndex NodeId))
    (peer : HubPeer NodeId) (cell : swap.Cell) where
  abbrev alone : swap.Cell → swap.Cell
  alone c = c

  after :
      swap.load (try_claim_peer ids swap alone peer cell).1 ≡ claim_index ids peer (swap.load cell)
  unfolding try_claim_peer
  after = swap.rcu-stores (claim_index ids peer) cell

  verdict :
      (try_claim_peer ids swap alone peer cell).0
      ≡ claim_verdict ids peer (claim_index ids peer (swap.load cell))
  unfolding try_claim_peer
  verdict = rw (swap.rcu-stores (claim_index ids peer) cell) refl

  -- When no other peer holds either address and no other task runs in between, a claim succeeds,
  -- and both addresses lead to the session that claimed them.
  pub try_claim_peer-claimed :
      (foreign ids peer (get v4_keys (swap.load cell).by_v4 peer.vip)
          || foreign ids peer (get v6_keys (swap.load cell).by_v6 peer.vip6))
        ≡ false
      → ((try_claim_peer ids swap (λ c. c) peer cell).0 ≡ ok tt)
        × (get v4_keys (swap.load (try_claim_peer ids swap (λ c. c) peer cell).1).by_v4 peer.vip
            ≡ some peer)
        × (get v6_keys (swap.load (try_claim_peer ids swap (λ c. c) peer cell).1).by_v6 peer.vip6
            ≡ some peer)
  unfolding claim_verdict
  try_claim_peer-claimed free =
      let both = claim_index-free ids peer (swap.load cell) free in
      let self : ids.same peer.id peer.id ≡ true = (ids.same_iff peer.id peer.id).1 refl in
      (verdict ∙ rw (both.0, self) refl, rw after both.0, rw after both.1)
