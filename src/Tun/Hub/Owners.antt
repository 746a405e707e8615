-- ===== src/Tun/Hub/Owners.antt =====
-- The teardown of a session on the hub, `peers_remove_if_owned` of src/tun/hub.rs.
use link_p2p.Prelude.{
  ℕ, ◌≡◌, refl, ◌∙◌, true, false, ◌||◌, none, some, List, ◌==◌, arith, if◌then◌else◌, Bool-cases,
  ==_self, inl, inr,
}
use link_p2p.Net.{Ipv4Addr, Ipv6Addr}
use link_p2p.Endpoint.{Endpoints}
use link_p2p.Table.{Keys, get, remove, ArcSwap}
use link_p2p.Table.Lookups.{get-remove_same, get-remove_other, contains_key-some, contains_key-none}
use link_p2p.Tun.Vip.Equal.{v4_keys, v6_keys}
use link_p2p.Tun.Hub.{
  HubPeer, HubPeerIndex, slot_is, foreign, try_claim_peer, remove_index, peers_remove_if_owned,
}
use link_p2p.Tun.Hub.Claims.{try_claim_peer-claimed}

-- `if ours { remove }` on one of the two maps.
module _ {K : Type 0} {NodeId : Type 0} (keys : Keys K) (m : List (K × HubPeer NodeId)) (k : K)
    (session : ℕ) where
  removed : List (K × HubPeer NodeId)
  removed = if slot_is (λ p. p.session == session) (get keys m k) then remove keys m k else m

  removed-keeps :
      (j : K) (p : HubPeer NodeId)
      → (p.session == session) ≡ false
      → get keys m j ≡ some p
      → get keys removed j ≡ some p
  unfolding removed
  removed-keeps j p newer h =
      elim (Bool-cases (slot_is (λ p. p.session == session) (get keys m k))) [
        | inr e ↦ rw e h
        | inl e ↦ elim (Bool-cases (keys.same k j)) [
          | inl t ↦
              let key : k ≡ j = (keys.same_iff k j).0 t in
              let slot : get keys m k ≡ some p = rw key h in absurd (grind (arith, slot, e, newer))
          | inr t ↦ rw e (get-remove_other keys m k j t ∙ h)
        ]
      ]

  removed-frees :
      (p : HubPeer NodeId) → p.session ≡ session → get keys m k ≡ some p → get keys removed k ≡ none
  unfolding removed
  removed-frees p own h =
      let e : slot_is (λ p. p.session == session) (get keys m k) ≡ true =
        rw (h, own) (==_self session) in
      rw e (get-remove_same keys m k)

module _ {NodeId : Type 0} (vip : Ipv4Addr) (vip6 : Ipv6Addr) (session : ℕ)
    (idx : HubPeerIndex NodeId) where
  -- The early return changes nothing that the two tests would not keep as well.
  remove_index_lem : remove_index vip vip6 session idx ≡ record {
    by_v4 = removed v4_keys idx.by_v4 vip session;
    by_v6 = removed v6_keys idx.by_v6 vip6 session;
  }
  unfolding remove_index removed
  remove_index_lem =
      elim (Bool-cases (slot_is (λ p. p.session == session) (get v4_keys idx.by_v4 vip))) [
        | inl e ↦ rw e refl
        | inr e ↦
            elim (Bool-cases (slot_is (λ p. p.session == session) (get v6_keys idx.by_v6 vip6))) [
              | inl e6 ↦ rw (e, e6) refl
              | inr e6 ↦ rw (e, e6) refl
            ]
      ]

  -- Teardown leaves every entry of another session in place, whatever the addresses.
  pub remove_index-keeps :
      (p : HubPeer NodeId) (ip : Ipv4Addr) (ip6 : Ipv6Addr)
      → (p.session == session) ≡ false
      → get v4_keys idx.by_v4 ip ≡ some p
      → get v6_keys idx.by_v6 ip6 ≡ some p
      → (get v4_keys (remove_index vip vip6 session idx).by_v4 ip ≡ some p)
        × (get v6_keys (remove_index vip vip6 session idx).by_v6 ip6 ≡ some p)
  remove_index-keeps p ip ip6 newer h4 h6 = rw remove_index_lem (
    removed-keeps v4_keys idx.by_v4 vip session ip p newer h4,
    removed-keeps v6_keys idx.by_v6 vip6 session ip6 p newer h6,
  )

  remove_index-frees :
      (p : HubPeer NodeId)
      → p.session ≡ session
      → get v4_keys idx.by_v4 vip ≡ some p
      → get v6_keys idx.by_v6 vip6 ≡ some p
      → (get v4_keys (remove_index vip vip6 session idx).by_v4 vip ≡ none)
        × (get v6_keys (remove_index vip vip6 session idx).by_v6 vip6 ≡ none)
  remove_index-frees p own h4 h6 = rw remove_index_lem (
    removed-frees v4_keys idx.by_v4 vip session p own h4,
    removed-frees v6_keys idx.by_v6 vip6 session p own h6,
  )

module _ {NodeId : Type 0} (swap : ArcSwap (HubPeerIndex NodeId)) (p : HubPeer NodeId)
    (cell : swap.Cell) where
  -- When a session still owns both of its slots and no other task runs in between, its teardown
  -- reports both slots as empty.
  pub peers_remove_if_owned-own :
      get v4_keys (swap.load cell).by_v4 p.vip ≡ some p
      → get v6_keys (swap.load cell).by_v6 p.vip6 ≡ some p
      → (peers_remove_if_owned swap (λ c. c) p.vip p.vip6 p.session cell).0 ≡ true
  unfolding peers_remove_if_owned
  peers_remove_if_owned-own h4 h6 =
      let free = remove_index-frees p.vip p.vip6 p.session (swap.load cell) p refl h4 h6 in
      let left : HubPeerIndex NodeId = remove_index p.vip p.vip6 p.session (swap.load cell) in
      rw
        (
          swap.rcu-stores (remove_index p.vip p.vip6 p.session) cell,
          contains_key-none v4_keys left.by_v4 p.vip free.0,
          contains_key-none v6_keys left.by_v6 p.vip6 free.1,
        )
        refl

  -- An old session of the same addresses is not, and leaves the new one in both slots.
  pub peers_remove_if_owned-successor :
      (old : ℕ)
      → (p.session == old) ≡ false
      → get v4_keys (swap.load cell).by_v4 p.vip ≡ some p
      → get v6_keys (swap.load cell).by_v6 p.vip6 ≡ some p
      → ((peers_remove_if_owned swap (λ c. c) p.vip p.vip6 old cell).0 ≡ false)
        × (get v4_keys
              (swap.load (peers_remove_if_owned swap (λ c. c) p.vip p.vip6 old cell).1).by_v4
              p.vip
            ≡ some p)
        × (get v6_keys
              (swap.load (peers_remove_if_owned swap (λ c. c) p.vip p.vip6 old cell).1).by_v6
              p.vip6
            ≡ some p)
  unfolding peers_remove_if_owned
  peers_remove_if_owned-successor old newer h4 h6 =
      let kept = remove_index-keeps p.vip p.vip6 old (swap.load cell) p p.vip p.vip6 newer h4 h6 in
      let stores = swap.rcu-stores (remove_index p.vip p.vip6 old) cell in
      let left : HubPeerIndex NodeId = remove_index p.vip p.vip6 old (swap.load cell) in
      (
        rw (stores, contains_key-some v4_keys left.by_v4 p.vip p kept.0) refl,
        rw stores kept.0,
        rw stores kept.1,
      )

-- A peer reconnects before its old session ends: after the claim of the new session, of addresses
-- that no other peer holds, the teardown of the old session leaves the new one in both slots and
-- does not report them as empty, so that no route is deleted.
pub reconnect-survives :
    {NodeId : Type 0} (ids : Endpoints NodeId) (swap : ArcSwap (HubPeerIndex NodeId)) (old : ℕ)
    (peer : HubPeer NodeId) (cell : swap.Cell)
    → (peer.session == old) ≡ false
    → (foreign ids peer (get v4_keys (swap.load cell).by_v4 peer.vip)
        || foreign ids peer (get v6_keys (swap.load cell).by_v6 peer.vip6))
      ≡ false
    → ((peers_remove_if_owned swap
          (λ c. c)
          peer.vip
          peer.vip6
          old
          (try_claim_peer ids swap (λ c. c) peer cell).1).0
        ≡ false)
      × (get v4_keys
            (swap.load
              (peers_remove_if_owned swap
                (λ c. c)
                peer.vip
                peer.vip6
                old
                (try_claim_peer ids swap (λ c. c) peer cell).1).1).by_v4
            peer.vip
          ≡ some peer)
      × (get v6_keys
            (swap.load
              (peers_remove_if_owned swap
                (λ c. c)
                peer.vip
                peer.vip6
                old
                (try_claim_peer ids swap (λ c. c) peer cell).1).1).by_v6
            peer.vip6
          ≡ some peer)
reconnect-survives ids swap old peer cell newer free =
    let claimed = try_claim_peer-claimed ids swap peer cell free in
    peers_remove_if_owned-successor swap peer (try_claim_peer ids swap (λ c. c) peer cell).1 old
      newer claimed.1 claimed.2
