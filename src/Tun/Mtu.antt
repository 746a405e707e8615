-- ===== src/Tun/Mtu.antt =====
-- src/tun/mod.rs: the MTU of the TUN interface, which follows what the QUIC path can carry, and the
-- sender of one peer. Times are in milliseconds of a monotonic clock; `set_ok` tells whether the
-- operating system takes a new MTU. The cell of the MTU and the gate are shared by every session.
pub mod Bounded
use link_p2p.Prelude.{
  ℕ, ◌+◌, ◌-◌, Bool, true, false, ◌&&◌, not, Option, none, some, List, [], ◌∷◌, ltb, leb, ◌==◌,
  length, min, if◌then◌else◌,
}
use link_p2p.Net.{Bytes}
use link_p2p.Outcome.{Msg, Result, ok, err, root}
use link_p2p.Tun.Live.{OwnVips}
use link_p2p.Tun.Packet.{version, build_icmp_frag_needed, build_icmpv6_pkt_too_big}

unfoldable pub validate_mtu : ℕ → Result (Unit {0})
validate_mtu mtu = if ltb 1280 mtu then err (root (Msg.mtu_too_large mtu)) else ok tt

-- `u16::try_from(n).unwrap_or(u16::MAX)`
abbrev pub u16_or_max : ℕ → ℕ
u16_or_max n = if ltb 65535 n then 65535 else n

-- The path's ceiling is `conn.max_datagram_size()`.
unfoldable pub choose_mtu : ℕ → Option ℕ → Result ℕ
choose_mtu user_mtu none = err (root Msg.no_datagrams)
choose_mtu user_mtu (some max_dgram) = ok (min user_mtu (u16_or_max max_dgram))

abbrev pub mtu_raise_holdoff : ℕ
mtu_raise_holdoff = 15000

abbrev pub icmp_ptb_rate_per_sec : ℕ
icmp_ptb_rate_per_sec = 20

-- The two shared cells: the MTU, and the instant before which it is not raised.
pub record Iface : Type 0 where
  pub mtu : ℕ
  pub raise_after : ℕ

abbrev pub raised : ℕ → ℕ → Iface → Iface
raised user_mtu max_dgram i =
    let candidate = min user_mtu (u16_or_max max_dgram) in
    if ltb i.mtu candidate then record i { mtu = candidate } else i

-- `try_refresh_tun_mtu`: the cell is written before the operating system is asked, and an error is
-- ignored.
unfoldable pub refresh_tun_mtu : ℕ → ℕ → Option ℕ → Iface → Iface
refresh_tun_mtu now user_mtu none i = i
refresh_tun_mtu now user_mtu (some max_dgram) i =
    if ltb now i.raise_after then i else raised user_mtu max_dgram i

-- `shrink_tun_mtu`: the new MTU and whether the call gave `Ok(true)`.
unfoldable pub shrink_tun_mtu : Bool → ℕ → ℕ → ℕ × Bool
shrink_tun_mtu set_ok ceiling mtu =
    if ltb (u16_or_max ceiling) mtu then (u16_or_max ceiling, set_ok) else (mtu, false)

-- The shrink with `note_mtu_shrink`.
unfoldable pub shrunk : ℕ → Bool → ℕ → Iface → Iface
unfolding shrink_tun_mtu
shrunk now set_ok ceiling i =
    let (mtu, lowered) = shrink_tun_mtu set_ok ceiling i.mtu in
    record { mtu = mtu; raise_after = if lowered then now + mtu_raise_holdoff else i.raise_after }

-- The second in which the sender counts its ICMP messages.
pub record Window : Type 0 where
  pub start : ℕ
  pub count : ℕ

unfoldable pub rolled : ℕ → Window → Window
rolled now w = if leb 1000 (now - w.start) then record { start = now; count = 0 } else w

-- What becomes of a packet: it is sent as a datagram, answered into the local TUN, or dropped.
pub data Effect : Type 0 where
  datagram : Bytes → Effect
  answered : Bytes → Effect
  dropped : Effect

abbrev pub first_nibble : Bytes → ℕ
first_nibble [] = 0
first_nibble (b ∷ bs) = version (b ∷ bs)

abbrev pub icmp_for : Bytes → ℕ → OwnVips → Option Bytes
icmp_for pkt next_hop own =
    if first_nibble pkt == 4
    then build_icmp_frag_needed pkt next_hop own.v4
    else if first_nibble pkt == 6
    then build_icmpv6_pkt_too_big pkt next_hop own.v6
    else none

abbrev pub answer : Option Bytes → Window → Effect × Window
answer none w = (dropped, w)
answer (some icmp) w =
    if ltb w.count icmp_ptb_rate_per_sec
    then (answered icmp, record w { count = w.count + 1 })
    else (dropped, w)

-- The body of the loop of `spawn_peer_sender` at the instant `now`. Without a ceiling every packet is
-- tried.
unfoldable pub send_packet :
    OwnVips → ℕ → Bool → Option ℕ → Bytes → Window → Iface → Effect × Window × Iface
unfolding shrunk rolled
send_packet own now set_ok none pkt w i = (datagram pkt, w, i)
send_packet own now set_ok (some ceiling) pkt w i =
    if ltb ceiling (length pkt)
    then (let (effect, w') = answer (icmp_for pkt (u16_or_max ceiling) own) (rolled now w) in
        (effect, w', shrunk now set_ok ceiling i))
    else (datagram pkt, w, i)

-- A packet with the instant, the ceiling and the outcome of the system call that it meets.
pub record Sending : Type 0 where
  pub now : ℕ
  pub set_ok : Bool
  pub ceiling : Option ℕ
  pub packet : Bytes

-- The loop over what the queue gives.
unfoldable pub send_all : OwnVips → List Sending → Window → Iface → List Effect × Window × Iface
unfolding send_packet
send_all own [] w i = ([], w, i)
send_all own (s ∷ ss) w i =
    let (effect, w', i') = send_packet own s.now s.set_ok s.ceiling s.packet w i in
    let (effects, w'', i'') = send_all own ss w' i' in (effect ∷ effects, w'', i'')
