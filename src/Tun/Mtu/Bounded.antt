-- ===== src/Tun/Mtu/Bounded.antt =====
-- Bounds on the MTU and on the ICMP messages of src/tun/mod.rs.
use link_p2p.Prelude.{
  ℕ, ◌+◌, ◌≤◌, ◌<◌, ◌≡◌, refl, sym, ◌∙◌, ap, Bool, true, false, Option, none, some, List, [], ◌∷◌,
  ltb, lt→ltb, length, Bool-cases, arith, inl, inr,
}
use link_p2p.Net.{Bytes}
use link_p2p.Tun.Live.{OwnVips}
use link_p2p.Tun.Mtu.{
  u16_or_max, icmp_ptb_rate_per_sec, Iface, refresh_tun_mtu, shrink_tun_mtu, shrunk, Window, rolled,
  Effect, datagram, answered, dropped, icmp_for, answer, send_packet, Sending,
}

-- What the sessions do to the shared MTU, in any order: a timer refreshes it, or a packet is sent.
pub data IfaceStep (user : ℕ) : Iface → Iface → Type 0 where
  timer :
      (i : Iface) (now : ℕ) (path : Option ℕ) → IfaceStep user i (refresh_tun_mtu now user path i)
  packet :
      (i : Iface) (own : OwnVips) (s : Sending) (w : Window)
      → IfaceStep user i (send_packet own s.now s.set_ok s.ceiling s.packet w i).2

pub data IfaceReach (user : ℕ) (s : Iface) : Iface → Type 0 where
  here : IfaceReach user s s
  next : {t u : Iface} → IfaceReach user s t → IfaceStep user t u → IfaceReach user s u

refresh-early :
    (now user : ℕ) (path : Option ℕ) (i : Iface)
    → now < i.raise_after
    → refresh_tun_mtu now user path i ≡ i
unfolding refresh_tun_mtu
refresh-early now user none i h = refl
refresh-early now user (some max_dgram) i h = rw (lt→ltb now i.raise_after h) refl

shrunk-gate :
    (t ceiling : ℕ) (i : Iface)
    → u16_or_max ceiling < i.mtu
    → shrunk t true ceiling i ≡ record { mtu = u16_or_max ceiling; raise_after = t + 15000 }
unfolding shrunk shrink_tun_mtu
shrunk-gate t ceiling i lower = rw (lt→ltb (u16_or_max ceiling) i.mtu lower) refl

-- After a shrink the MTU is what the path can carry, and no timer raises it for 15 seconds, whatever
-- the path can carry by then.
pub refresh_tun_mtu-shrunk :
    (t now user ceiling : ℕ) (path : Option ℕ) (i : Iface)
    → u16_or_max ceiling < i.mtu
    → now < t + 15000
    → ((shrunk t true ceiling i).mtu ≡ u16_or_max ceiling)
      × (refresh_tun_mtu now user path (shrunk t true ceiling i) ≡ shrunk t true ceiling i)
refresh_tun_mtu-shrunk t now user ceiling path i lower early =
    let gate = shrunk-gate t ceiling i lower in
    let closed : now < (shrunk t true ceiling i).raise_after = rw gate early in
    (ap (λ j. j.mtu) gate, refresh-early now user path (shrunk t true ceiling i) closed)

abbrev payload : Bytes → Effect → Bytes
payload other (datagram p) = p
payload other (answered icmp) = other
payload other dropped = other

abbrev is_datagram : Effect → Bool
is_datagram (datagram p) = true
is_datagram (answered icmp) = false
is_datagram dropped = false

answer_none : (o : Option Bytes) (w : Window) → is_datagram (answer o w).0 ≡ false
answer_none none w = refl
answer_none (some icmp) w = elim (Bool-cases (ltb w.count icmp_ptb_rate_per_sec)) [
  | inl t ↦ rw t refl
  | inr t ↦ rw t refl
]

send_packet-big :
    (own : OwnVips) (now : ℕ) (set_ok : Bool) (ceiling : ℕ) (pkt : Bytes) (w : Window) (i : Iface)
    → ltb ceiling (length pkt) ≡ true
    → (send_packet own now set_ok (some ceiling) pkt w i).0
      ≡ (answer (icmp_for pkt (u16_or_max ceiling) own) (rolled now w)).0
unfolding send_packet
send_packet-big own now set_ok ceiling pkt w i big = rw big refl

send_packet-fits :
    (own : OwnVips) (now : ℕ) (set_ok : Bool) (ceiling : ℕ) (pkt : Bytes) (w : Window) (i : Iface)
    → ltb ceiling (length pkt) ≡ false
    → send_packet own now set_ok (some ceiling) pkt w i ≡ (datagram pkt, w, i)
unfolding send_packet
send_packet-fits own now set_ok ceiling pkt w i fits = rw fits refl

-- A packet that is sent as a datagram is the one that was queued, and fits the path.
pub send_packet-datagram :
    (own : OwnVips) (now : ℕ) (set_ok : Bool) (ceiling : ℕ) (pkt out : Bytes) (w : Window)
    (i : Iface)
    → (send_packet own now set_ok (some ceiling) pkt w i).0 ≡ datagram out
    → (out ≡ pkt)
      × (length pkt ≤ ceiling)
      × ((send_packet own now set_ok (some ceiling) pkt w i).2 ≡ i)
send_packet-datagram own now set_ok ceiling pkt out w i h =
    elim (Bool-cases (ltb ceiling (length pkt))) [
      | inl big ↦
          let none_sent = answer_none (icmp_for pkt (u16_or_max ceiling) own) (rolled now w) in
          let oversized = send_packet-big own now set_ok ceiling pkt w i big in
          absurd (ground (arith, none_sent, sym (ap is_datagram oversized) ∙ ap is_datagram h))
      | inr fits ↦
          let whole = send_packet-fits own now set_ok ceiling pkt w i fits in
          (
            ap (payload pkt) (sym h ∙ ap (λ r. r.0) whole),
            ground (arith, fits),
            ap (λ r. r.2) whole,
          )
    ]

abbrev pub answers : List Effect → ℕ
answers [] = 0
answers (answered icmp ∷ es) = 1 + answers es
answers (_ ∷ es) = answers es

abbrev pub Within : ℕ → Sending → Type 0
Within start s = s.now < start + 1000
