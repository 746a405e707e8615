-- ===== src/Socks/Targets.antt =====
-- The target header of src/socks5.rs: what `connect` writes, `serve` reads.
use mathlib.Core.List.{append_assoc}
use link_p2p.Prelude.{ℕ, ◌/◌, ◌%◌, ◌≤◌, ◌<◌, ◌≡◌, true, some, ◌∷◌, ◌++◌, length, arith}
use link_p2p.Net.{Bytes, Ipv4Addr, Ipv6Addr, IpAddr, v4, v6, octets4}
use link_p2p.Outcome.{Msg, ok}
use link_p2p.Wire.{Reader, be16, u16-be16}
use link_p2p.Utf8.{is_utf8}
use link_p2p.Socks.{Target, addr, domain, encode_target, read_v4, read_v6, read_domain, read_target}

-- The invariants of the Rust types: 16-bit ports, 16 octets of IPv6, UTF-8 hosts.
abbrev pub IsIp : IpAddr → Type 0
IsIp (v4 ip) = Unit
IsIp (v6 ip) = length ip.octets ≡ 16

abbrev pub IsTarget : Target → Type 0
IsTarget (addr a) = (a.port < 65536) × IsIp a.ip
IsTarget (domain host port) = (port < 65536) × (is_utf8 host ≡ true)

module _ (r : Reader) where
  read_port : (p : ℕ) (rest : Bytes) → p < 65536 → r.read_u16 (be16 p ++ rest) ≡ some (p, rest)
  read_port p rest h = ground (arith, r.u16_next (p / 256 % 256) (p % 256) rest, u16-be16 p)

  pub read_v4-append :
      (ip : Ipv4Addr) (p : ℕ) (rest : Bytes)
      → p < 65536
      → read_v4 r (octets4 ip ++ (be16 p ++ rest))
        ≡ ok (addr (record { ip = v4 ip; port = p }), rest)
  unfolding read_v4
  read_v4-append ip p rest h =
      ground (arith, r.fills (octets4 ip) (be16 p ++ rest), read_port p rest h)

  pub read_v6-append :
      (ip : Ipv6Addr) (p : ℕ) (rest : Bytes)
      → p < 65536
      → length ip.octets ≡ 16
      → read_v6 r (ip.octets ++ (be16 p ++ rest))
        ≡ ok (addr (record { ip = v6 ip; port = p }), rest)
  unfolding read_v6
  read_v6-append ip p rest h l =
      ground (arith, r.fills ip.octets (be16 p ++ rest), read_port p rest h)

  pub read_domain-append :
      (m n : Msg) (host : Bytes) (p : ℕ) (rest : Bytes)
      → p < 65536
      → length host ≤ 255
      → is_utf8 host ≡ true
      → read_domain r m n (length host % 256 ∷ host ++ (be16 p ++ rest)) ≡ ok (domain host p, rest)
  unfolding read_domain
  read_domain-append m n host p rest h short good = ground (
    arith,
    r.u8_next (length host % 256) (host ++ (be16 p ++ rest)),
    r.fills host (be16 p ++ rest),
    read_port p rest h,
  )

  read_target-ip :
      (ip : IpAddr) (p : ℕ) (bs rest : Bytes)
      → p < 65536
      → IsIp ip
      → encode_target (addr (record { ip = ip; port = p })) ≡ ok bs
      → read_target r (bs ++ rest) ≡ ok (addr (record { ip = ip; port = p }), rest)
  unfolding encode_target read_target
  read_target-ip (v4 ip) p bs rest hp hi h = ground (
    arith,
    append_assoc (octets4 ip) (be16 p) rest,
    r.u8_next 1 (octets4 ip ++ (be16 p ++ rest)),
    read_v4-append ip p rest hp,
  )
  read_target-ip (v6 ip) p bs rest hp hi h = ground (
    arith,
    append_assoc ip.octets (be16 p) rest,
    r.u8_next 4 (ip.octets ++ (be16 p ++ rest)),
    read_v6-append ip p rest hp hi,
  )

  -- Every target that can be encoded is read back by the peer, and the stream is left at the first
  -- byte of the payload.
  pub read_target-encode_target :
      (t : Target) (bs rest : Bytes)
      → IsTarget t
      → encode_target t ≡ ok bs
      → read_target r (bs ++ rest) ≡ ok (t, rest)
  unfolding encode_target read_target
  read_target-encode_target (addr a) bs rest (p, i) h = read_target-ip a.ip a.port bs rest p i h
  read_target-encode_target (domain host port) bs rest (p, u) h = ground (
    arith,
    append_assoc host (be16 port) rest,
    r.u8_next 3 (length host % 256 ∷ host ++ (be16 port ++ rest)),
    read_domain-append Msg.domain_out_of_range Msg.non_utf8_domain host port rest p,
  )
