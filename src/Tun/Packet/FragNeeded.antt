-- ===== src/Tun/Packet/FragNeeded.antt =====
-- `build_icmp_frag_needed` of src/tun/mod.rs: the packet that it builds.
use link_p2p.Prelude.{
  ℕ, zero, suc, ◌+◌, ◌*◌, ◌≤◌, ◌<◌, ◌≡◌, sym, none, some, [], ◌∷◌, ◌++◌, length, get_or, take, drop,
  All, min, arith, bit_and, length-take,
}
use link_p2p.Bits.{and_0x0f}
use link_p2p.Net.{Bytes, IsByte, Ipv4Addr, ipv4}
use link_p2p.Tun.Packet.{
  inet_checksum, put_checksum, icmp4_blank, header4_blank, frag_needed, build_icmp_frag_needed,
  ipv4_src, ipv4_dst,
}

-- What the source and any router on the way read of the packet.
pub record IsFragNeeded (quote : Bytes) (gateway dst : Ipv4Addr) (pkt : Bytes) : Type 0 where
  pub header_sum : inet_checksum (take 20 pkt) ≡ 0
  pub message_sum : inet_checksum (drop 20 pkt) ≡ 0
  pub from : ipv4_src pkt ≡ some gateway
  pub to : ipv4_dst pkt ≡ some dst
  pub size : length pkt ≡ 28 + length quote
  pub quoted : drop 28 pkt ≡ quote

abbrev built : Bytes → ℕ → Ipv4Addr → Ipv4Addr → Bytes
built quote mtu gateway dst =
    let blank = icmp4_blank quote mtu in
    let header = header4_blank (28 + length quote) gateway dst in
    put_checksum 10 (inet_checksum header) header ++ put_checksum 2 (inet_checksum blank) blank

frag_needed-built :
    (quote : Bytes) (mtu : ℕ) (gateway dst : Ipv4Addr)
    → length quote ≤ 68
    → frag_needed quote mtu gateway dst ≡ some (built quote mtu gateway dst)
unfolding frag_needed
frag_needed-built quote mtu gateway dst hl = ground arith

pub get_or-IsByte : (bs : Bytes) (i : ℕ) → All IsByte bs → get_or bs i 0 < 256
get_or-IsByte [] i h = omega arith
get_or-IsByte (b ∷ bs) zero (h, hs) = h
get_or-IsByte (b ∷ bs) (suc i) (h, hs) = get_or-IsByte bs i hs

-- The header of the original packet and 64 bits of its payload.
abbrev pub rfc792_quote : Bytes → Bytes
rfc792_quote orig = take (min (length orig) (bit_and (get_or orig 0 0) 0x0f * 4 + 8)) orig

built-not_answered :
    (quote : Bytes) (mtu next_mtu : ℕ) (gateway dst next : Ipv4Addr)
    → build_icmp_frag_needed (built quote mtu gateway dst) next_mtu next ≡ none
unfolding build_icmp_frag_needed
built-not_answered quote mtu next_mtu gateway dst next = ground arith

quote_length : (orig : Bytes) → length (rfc792_quote orig) ≤ 68
quote_length orig =
    let n : ℕ = min (length orig) (bit_and (get_or orig 0 0) 0x0f * 4 + 8) in
    omega (arith, length-take n orig, and_0x0f (get_or orig 0 0))

frag_needed-not_answered :
    (quote : Bytes) (mtu next_mtu : ℕ) (gateway dst next : Ipv4Addr) (pkt : Bytes)
    → length quote ≤ 68
    → frag_needed quote mtu gateway dst ≡ some pkt
    → build_icmp_frag_needed pkt next_mtu next ≡ none
frag_needed-not_answered quote mtu next_mtu gateway dst next pkt hl e =
    let same : built quote mtu gateway dst ≡ pkt =
      grind (arith, frag_needed-built quote mtu gateway dst hl) in
    rw (sym same) (built-not_answered quote mtu next_mtu gateway dst next)

-- An answer that is built is never answered itself, whatever MTU and gateway come next.
pub build_icmp_frag_needed-not_answered :
    (orig : Bytes) (mtu next_mtu : ℕ) (gateway next : Ipv4Addr) (pkt : Bytes)
    → build_icmp_frag_needed orig mtu gateway ≡ some pkt
    → build_icmp_frag_needed pkt next_mtu next ≡ none
unfolding build_icmp_frag_needed
build_icmp_frag_needed-not_answered orig mtu next_mtu gateway next pkt hb =
    let src : Ipv4Addr =
      ipv4 (get_or orig 12 0) (get_or orig 13 0) (get_or orig 14 0) (get_or orig 15 0) in
    let reached : frag_needed (rfc792_quote orig) mtu gateway src ≡ some pkt = ground arith in
    frag_needed-not_answered (rfc792_quote orig) mtu next_mtu gateway src next pkt
      (quote_length orig) reached
