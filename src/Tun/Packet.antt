-- ===== src/Tun/Packet.antt =====
-- src/tun/mod.rs: raw IP packets. Their addresses, the Internet checksum and the ICMP messages that
-- announce a smaller MTU.
pub mod Checksum
pub mod FragNeeded
pub mod TooBig
use link_p2p.Prelude.{
  ℕ, zero, suc, ◌+◌, ◌-◌, ◌*◌, ◌/◌, ◌%◌, Bool, ◌||◌, not, Option, none, some, [], ◌∷◌, ◌++◌, ltb,
  ◌==◌, length, get_or, take, drop, set, min, bit_and, if◌then◌else◌,
}
use link_p2p.Net.{
  Bytes, Ipv4Addr, Ipv6Addr, ipv4, octets4, is_unspecified4, is_broadcast4, is_multicast4,
  is_loopback4, is_unspecified6, is_multicast6, is_loopback6,
}
use link_p2p.Wire.{be16, be32}

-- `pkt[0] >> 4`
abbrev pub version : Bytes → ℕ
version pkt = get_or pkt 0 0 / 16

abbrev ipv4_at : ℕ → Bytes → Option Ipv4Addr
ipv4_at i pkt =
    if ltb (length pkt) 20 || not (version pkt == 4)
    then none
    else some
        (ipv4 (get_or pkt i 0) (get_or pkt (i + 1) 0) (get_or pkt (i + 2) 0) (get_or pkt (i + 3) 0))

unfoldable pub ipv4_dst : Bytes → Option Ipv4Addr
ipv4_dst pkt = ipv4_at 16 pkt

unfoldable pub ipv4_src : Bytes → Option Ipv4Addr
ipv4_src pkt = ipv4_at 12 pkt

abbrev ipv6_at : ℕ → Bytes → Option Ipv6Addr
ipv6_at i pkt =
    if ltb (length pkt) 40 || not (version pkt == 6)
    then none
    else some (record { octets = take 16 (drop i pkt) })

unfoldable pub ipv6_dst : Bytes → Option Ipv6Addr
ipv6_dst pkt = ipv6_at 24 pkt

unfoldable pub ipv6_src : Bytes → Option Ipv6Addr
ipv6_src pkt = ipv6_at 8 pkt

-- `sum += word`, in u32.
unfoldable pub add_words : ℕ → Bytes → ℕ
add_words sum [] = sum
add_words sum (b ∷ []) = (sum + b * 256) % 4294967296
add_words sum (a ∷ b ∷ rest) = add_words ((sum + (a * 256 + b)) % 4294967296) rest

-- `while sum > 0xffff`, with fuel.
unfoldable pub fold_carry : ℕ → ℕ → ℕ
fold_carry zero sum = sum
fold_carry (suc fuel) sum =
    let more = fold_carry fuel (bit_and sum 0xffff + sum / 65536) in
    if ltb 0xffff sum then more else sum

-- Three rounds are enough for every u32. `!(sum as u16)` is `65535 - sum % 65536`.
unfoldable pub inet_checksum : Bytes → ℕ
unfolding add_words fold_carry
inet_checksum bs = 65535 - fold_carry 3 (add_words 0 bs) % 65536

-- `bytes[i] = (csum >> 8) as u8; bytes[i + 1] = (csum & 0xff) as u8`
abbrev pub put_checksum : ℕ → ℕ → Bytes → Bytes
put_checksum i csum bs = set (set bs i (csum / 256 % 256)) (i + 1) (bit_and csum 0xff)

abbrev pub icmp4_blank : Bytes → ℕ → Bytes
icmp4_blank quote next_hop_mtu = 3 ∷ 4 ∷ 0 ∷ 0 ∷ 0 ∷ 0 ∷ be16 next_hop_mtu ++ quote

abbrev pub header4_blank : ℕ → Ipv4Addr → Ipv4Addr → Bytes
header4_blank total_len gateway dst =
    0x45 ∷ 0 ∷ be16 (total_len % 65536)
    ++ 0 ∷ 0 ∷ 0 ∷ 0 ∷ 64 ∷ 1 ∷ 0 ∷ 0 ∷ octets4 gateway
    ++ octets4 dst

-- The packet around a quote of the original one.
unfoldable pub frag_needed : Bytes → ℕ → Ipv4Addr → Ipv4Addr → Option Bytes
unfolding inet_checksum
frag_needed quote next_hop_mtu gateway dst =
    let blank = icmp4_blank quote next_hop_mtu in
    let icmp = put_checksum 2 (inet_checksum blank) blank in
    let total_len = 20 + length icmp in
    let header = header4_blank total_len gateway dst in
    if ltb 65535 total_len
    then none
    else some (put_checksum 10 (inet_checksum header) header ++ icmp)

unfoldable pub build_icmp_frag_needed : Bytes → ℕ → Ipv4Addr → Option Bytes
build_icmp_frag_needed orig next_hop_mtu gateway =
    let ihl = bit_and (get_or orig 0 0) 0x0f * 4 in
    let orig_src =
      ipv4 (get_or orig 12 0) (get_or orig 13 0) (get_or orig 14 0) (get_or orig 15 0) in
    if ltb (length orig) 20
    then none
    else if ltb ihl 20 || ltb (length orig) ihl
    then none
    else if not (version orig == 4)
    then none
    else if get_or orig 9 0 == 1
    then none
    else if is_unspecified4 orig_src
        || is_broadcast4 orig_src
        || is_multicast4 orig_src
        || is_loopback4 orig_src
    then none
    else frag_needed (take (min (length orig) (ihl + 8)) orig) next_hop_mtu gateway orig_src

abbrev pub icmp6_blank : Bytes → ℕ → Bytes
icmp6_blank quote mtu = 2 ∷ 0 ∷ 0 ∷ 0 ∷ be32 mtu ++ quote

-- The IPv6 pseudo-header of the checksum.
abbrev pub pseudo : ℕ → Ipv6Addr → Ipv6Addr → Bytes
pseudo icmp_len gateway dst =
    gateway.octets ++ (dst.octets ++ (be32 icmp_len ++ 0 ∷ 0 ∷ 0 ∷ 58 ∷ []))

abbrev pub header6 : ℕ → Ipv6Addr → Ipv6Addr → Bytes
header6 payload_len gateway dst =
    0x60 ∷ 0 ∷ 0 ∷ 0 ∷ be16 payload_len ++ 58 ∷ 64 ∷ gateway.octets ++ dst.octets

unfoldable pub pkt_too_big : Bytes → ℕ → Ipv6Addr → Ipv6Addr → Bytes
unfolding inet_checksum
pkt_too_big quote mtu gateway dst =
    let blank = icmp6_blank quote mtu in
    let csum = inet_checksum (pseudo (length blank % 4294967296) gateway dst ++ blank) in
    let icmp = put_checksum 2 csum blank in header6 (length icmp % 65536) gateway dst ++ icmp

unfoldable pub build_icmpv6_pkt_too_big : Bytes → ℕ → Ipv6Addr → Option Bytes
build_icmpv6_pkt_too_big orig mtu gateway =
    let orig_src : Ipv6Addr = record { octets = take 16 (drop 8 orig) } in
    if ltb (length orig) 40 || not (version orig == 6)
    then none
    else if get_or orig 6 0 == 58
    then none
    else if is_unspecified6 orig_src || is_multicast6 orig_src || is_loopback6 orig_src
    then none
    else some (pkt_too_big (take (min (length orig) (1280 - (40 + 8))) orig) mtu gateway orig_src)
