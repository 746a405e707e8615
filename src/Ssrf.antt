-- ===== src/Ssrf.antt =====
-- src/ssrf.rs: the guard that keeps `serve --proxy` from dialling private ranges for a peer.
pub mod Ranges
pub mod Embedded
use link_p2p.Prelude.{
  ℕ, ◌/◌, ◌%◌, Bool, true, not, ◌&&◌, ◌||◌, Option, none, some, ◌==◌, bit_and, if◌then◌else◌,
}
use link_p2p.Net.{
  Ipv4Addr, Ipv6Addr, IpAddr, v4, v6, SocketAddr, ipv4, u32_of, segment, to_canonical, is_loopback4,
  is_private4, is_link_local4, is_unspecified4, is_multicast4, is_broadcast4, is_loopback6,
  is_unspecified6, is_multicast6,
}
use link_p2p.Outcome.{Msg, Result, ok, err, root}

-- An address that passed `check_proxy_target`.
pub record CheckedTarget : Type 0 where
  pub addr : SocketAddr

unfoldable pub is_cgnat : Ipv4Addr → Bool
is_cgnat ip = bit_and (u32_of ip) 0xffc0_0000 == 0x6440_0000

unfoldable pub is_6to4_relay_anycast : Ipv4Addr → Bool
is_6to4_relay_anycast ip = bit_and (u32_of ip) 0xffff_ff00 == 0xc058_6300

unfoldable pub is_blocked_v4 : Ipv4Addr → Bool
is_blocked_v4 ip =
    is_loopback4 ip
    || is_private4 ip
    || is_cgnat ip
    || is_6to4_relay_anycast ip
    || is_link_local4 ip
    || is_unspecified4 ip
    || is_multicast4 ip
    || is_broadcast4 ip

unfoldable pub is_ula : Ipv6Addr → Bool
is_ula ip = bit_and (segment ip 0) 0xfe00 == 0xfc00

unfoldable pub is_link_local6 : Ipv6Addr → Bool
is_link_local6 ip = bit_and (segment ip 0) 0xffc0 == 0xfe80

unfoldable pub is_blocked_v6_native : Ipv6Addr → Bool
is_blocked_v6_native ip =
    is_loopback6 ip || is_unspecified6 ip || is_multicast6 ip || is_ula ip || is_link_local6 ip

-- `hi >> 8`, `hi & 0xff`, as u8.
unfoldable pub ipv4_from_u16_pair : ℕ → ℕ → Ipv4Addr
ipv4_from_u16_pair hi lo =
    ipv4 (hi / 256 % 256) (bit_and hi 0xff % 256) (lo / 256 % 256) (bit_and lo 0xff % 256)

unfoldable pub embedded_ipv4 : Ipv6Addr → Option Ipv4Addr
embedded_ipv4 ip =
    let s = segment ip in
    if s 0 == 0
      && s 1 == 0
      && s 2 == 0
      && s 3 == 0
      && s 4 == 0
      && s 5 == 0
      && not (is_unspecified6 ip)
      && not (is_loopback6 ip)
    then some (ipv4_from_u16_pair (s 6) (s 7))
    else if s 0 == 0x64 && s 1 == 0xff9b && s 2 == 0 && s 3 == 0 && s 4 == 0 && s 5 == 0
    then some (ipv4_from_u16_pair (s 6) (s 7))
    else if s 0 == 0x2002
    then some (ipv4_from_u16_pair (s 1) (s 2))
    else none

unfoldable pub is_teredo : Ipv6Addr → Bool
is_teredo ip = segment ip 0 == 0x2001 && segment ip 1 == 0x0000

unfoldable pub is_blocked_v6 : Ipv6Addr → Bool
is_blocked_v6 ip = elim (embedded_ipv4 ip) [
  | some inner ↦ is_blocked_v4 inner
  | none ↦ if is_teredo ip then true else is_blocked_v6_native ip
]

unfoldable pub is_blocked_ip : IpAddr → Bool
is_blocked_ip ip = elim (to_canonical ip) [ v4 a ↦ is_blocked_v4 a | v6 a ↦ is_blocked_v6 a ]

unfoldable pub is_blocked_target : SocketAddr → Bool
is_blocked_target addr = is_blocked_ip addr.ip

unfoldable pub check_proxy_target : SocketAddr → Bool → Result CheckedTarget
check_proxy_target target allow_private =
    if not allow_private && is_blocked_target target
    then err (root Msg.blocked_target)
    else ok (record { addr = target })

-- `TcpStream::connect` is a parameter.
unfoldable pub dial_checked : {S : Type 0} → (SocketAddr → Option S) → CheckedTarget → Option S
dial_checked connect target = connect target.addr
