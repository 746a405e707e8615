-- ===== src/Tests/Packets.antt =====
-- ICMP answers to concrete packets.
use link_p2p.Prelude.{Option, some, none, [], ◌∷◌, ◌++◌}
use link_p2p.Net.{Bytes, octets4}
use link_p2p.Tun.Packet.{build_icmp_frag_needed, build_icmpv6_pkt_too_big}
use link_p2p.Tests.Stubs.{mesh4, mesh6}

abbrev unwrap : Option Bytes → Bytes
unwrap (some bs) = bs
unwrap none = []

-- UDP from 172.24.0.2 to 172.24.0.3, and from fd24:ac18::2 to fd24:ac18::3.
abbrev udp4 : Bytes
udp4 =
    0x45 ∷ 0 ∷ 0 ∷ 28 ∷ 0 ∷ 0 ∷ 0x40 ∷ 0 ∷ 64 ∷ 17 ∷ 0 ∷ 0 ∷ octets4 (mesh4 2)
    ++ (octets4 (mesh4 3) ++ 1 ∷ 2 ∷ 3 ∷ 4 ∷ [])

abbrev udp6 : Bytes
udp6 = 0x60 ∷ 0 ∷ 0 ∷ 0 ∷ 0 ∷ 2 ∷ 17 ∷ 64 ∷ (mesh6 2).octets ++ ((mesh6 3).octets ++ 1 ∷ 2 ∷ [])

abbrev answer4 : Bytes
answer4 = unwrap (build_icmp_frag_needed udp4 1280 (mesh4 1))

abbrev answer6 : Bytes
answer6 = unwrap (build_icmpv6_pkt_too_big udp6 1280 (mesh6 1))
