-- ===== src/Tun/Packet/TooBig.antt =====
-- `build_icmpv6_pkt_too_big` of src/tun/mod.rs: the packet that it builds.
use link_p2p.Prelude.{
  ℕ, ◌+◌, ◌-◌, ◌%◌, ◌≡◌, refl, sym, none, some, Bool, ◌||◌, not, ltb, ◌==◌, if◌then◌else◌, ◌++◌,
  length, get_or, take, drop, min, arith,
}
use link_p2p.Net.{Bytes, IsIpv6, Ipv6Addr, is_unspecified6, is_multicast6, is_loopback6}
use link_p2p.Tun.Packet.{
  version, inet_checksum, put_checksum, icmp6_blank, header6, pseudo, pkt_too_big,
  build_icmpv6_pkt_too_big, ipv6_src, ipv6_dst,
}

-- The ICMPv6 message, with its checksum.
abbrev message : Bytes → ℕ → Ipv6Addr → Ipv6Addr → Bytes
message quote mtu gateway dst =
    let blank = icmp6_blank quote mtu in
    put_checksum 2 (inet_checksum (pseudo (length blank % 4294967296) gateway dst ++ blank)) blank

-- What the source reads of the packet, with the pseudo-header of RFC 8200.
pub record IsTooBig (quote : Bytes) (gateway dst : Ipv6Addr) (pkt : Bytes) : Type 0 where
  pub message_sum : inet_checksum (pseudo (length (drop 40 pkt)) gateway dst ++ drop 40 pkt) ≡ 0
  pub from : ipv6_src pkt ≡ some gateway
  pub to : ipv6_dst pkt ≡ some dst
  pub size : length pkt ≡ 48 + length quote
  pub quoted : drop 48 pkt ≡ quote

module _ (gateway dst : Ipv6Addr) (hg : IsIpv6 gateway) (hd : IsIpv6 dst) (n : ℕ)
    (msg : Bytes) where
  -- The first eight bytes of the packet, the addresses and the message.
  abbrev packet : Bytes
  packet = header6 n gateway dst ++ msg

-- The IPv6 minimum MTU less two headers.
abbrev pub rfc4443_quote : Bytes → Bytes
rfc4443_quote orig = take (min (length orig) (1280 - (40 + 8))) orig

guarded :
    {A : Type 0} (a b c : Bool) (x y : A)
    → (if a then none else if b then none else if c then none else some x) ≡ some y
    → x ≡ y
guarded a b c x y h = ground arith

pkt_too_big-built :
    (quote : Bytes) (mtu : ℕ) (gateway dst : Ipv6Addr) (pkt : Bytes)
    → pkt_too_big quote mtu gateway dst ≡ pkt
    → header6 (length (message quote mtu gateway dst) % 65536) gateway dst
        ++ message quote mtu gateway dst
      ≡ pkt
unfolding pkt_too_big
pkt_too_big-built quote mtu gateway dst pkt e = e

reached_too_big :
    (orig : Bytes) (mtu : ℕ) (gateway : Ipv6Addr) (pkt : Bytes)
    → build_icmpv6_pkt_too_big orig mtu gateway ≡ some pkt
    → pkt_too_big (rfc4443_quote orig) mtu gateway (record { octets = take 16 (drop 8 orig) }) ≡ pkt
unfolding build_icmpv6_pkt_too_big
reached_too_big orig mtu gateway pkt hb =
    let src : Ipv6Addr = record { octets = take 16 (drop 8 orig) } in
    guarded (ltb (length orig) 40 || not (version orig == 6)) (get_or orig 6 0 == 58)
      (is_unspecified6 src || is_multicast6 src || is_loopback6 src)
      (pkt_too_big (rfc4443_quote orig) mtu gateway src) pkt hb

-- An ICMPv6 answer that is built is never answered itself, whatever MTU and gateway come next.
pub build_icmpv6_pkt_too_big-not_answered :
    (orig : Bytes) (mtu next_mtu : ℕ) (gateway next : Ipv6Addr) (pkt : Bytes)
    → build_icmpv6_pkt_too_big orig mtu gateway ≡ some pkt
    → build_icmpv6_pkt_too_big pkt next_mtu next ≡ none
unfolding build_icmpv6_pkt_too_big
build_icmpv6_pkt_too_big-not_answered orig mtu next_mtu gateway next pkt hb =
    let src : Ipv6Addr = record { octets = take 16 (drop 8 orig) } in
    let reached : pkt_too_big (rfc4443_quote orig) mtu gateway src ≡ pkt =
      reached_too_big orig mtu gateway pkt hb in
    let same = pkt_too_big-built (rfc4443_quote orig) mtu gateway src pkt reached in
    let six : get_or pkt 6 0 ≡ 58 = rw (sym same) refl in ground arith
