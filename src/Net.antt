-- ===== src/Net.antt =====
-- The IP addresses of Rust's `std::net`, with the tests on them that the program calls.
use link_p2p.Prelude.{
  ℕ, ◌+◌, ◌*◌, ◌/◌, ◌%◌, ◌<◌, ◌≡◌, Bool, ◌&&◌, ◌||◌, List, [], ◌∷◌, ◌++◌, leb, ◌==◌, length, get_or,
  take, drop, bytes_eq, All, if◌then◌else◌,
}

abbrev pub Bytes : Type 0
Bytes = List ℕ

abbrev pub IsByte : ℕ → Type 0
IsByte b = b < 256

pub record Ipv4Addr : Type 0 where
  pub o0 : ℕ
  pub o1 : ℕ
  pub o2 : ℕ
  pub o3 : ℕ

-- Sixteen octets.
pub record Ipv6Addr : Type 0 where
  pub octets : Bytes

pub record IsIpv4 (ip : Ipv4Addr) : Type 0 where
  pub byte0 : ip.o0 < 256
  pub byte1 : ip.o1 < 256
  pub byte2 : ip.o2 < 256
  pub byte3 : ip.o3 < 256

pub record IsIpv6 (ip : Ipv6Addr) : Type 0 where
  pub sixteen : length ip.octets ≡ 16
  pub bytes : All IsByte ip.octets

pub data IpAddr : Type 0 where
  v4 : Ipv4Addr → IpAddr
  v6 : Ipv6Addr → IpAddr

pub record SocketAddr : Type 0 where
  pub ip : IpAddr
  pub port : ℕ

-- `Ipv4Addr::new` and `octets`.
abbrev pub ipv4 : ℕ → ℕ → ℕ → ℕ → Ipv4Addr
ipv4 a b c d = record { o0 = a; o1 = b; o2 = c; o3 = d }

abbrev pub octets4 : Ipv4Addr → Bytes
octets4 ip = ip.o0 ∷ ip.o1 ∷ ip.o2 ∷ ip.o3 ∷ []

-- `Ipv4Addr::from` an array of four octets.
abbrev pub ipv4_from : Bytes → Ipv4Addr
ipv4_from bs = ipv4 (get_or bs 0 0) (get_or bs 1 0) (get_or bs 2 0) (get_or bs 3 0)

-- `u32::from(ip)` and `Ipv4Addr::from(u32)`.
abbrev pub u32_of : Ipv4Addr → ℕ
u32_of ip = ip.o0 * 16777216 + ip.o1 * 65536 + ip.o2 * 256 + ip.o3

abbrev pub ipv4_of_u32 : ℕ → Ipv4Addr
ipv4_of_u32 n = ipv4 (n / 16777216 % 256) (n / 65536 % 256) (n / 256 % 256) (n % 256)

abbrev pub ipv4_eq : Ipv4Addr → Ipv4Addr → Bool
ipv4_eq a b = a.o0 == b.o0 && a.o1 == b.o1 && a.o2 == b.o2 && a.o3 == b.o3

abbrev pub ipv6_eq : Ipv6Addr → Ipv6Addr → Bool
ipv6_eq a b = bytes_eq a.octets b.octets

abbrev pub unspecified4 : Ipv4Addr
unspecified4 = ipv4 0 0 0 0

abbrev pub unspecified6 : Ipv6Addr
unspecified6 = record {
  octets = 0 ∷ 0 ∷ 0 ∷ 0 ∷ 0 ∷ 0 ∷ 0 ∷ 0 ∷ 0 ∷ 0 ∷ 0 ∷ 0 ∷ 0 ∷ 0 ∷ 0 ∷ 0 ∷ [];
}

abbrev pub is_loopback4 : Ipv4Addr → Bool
is_loopback4 ip = ip.o0 == 127

abbrev pub is_private4 : Ipv4Addr → Bool
is_private4 ip =
    ip.o0 == 10 || (ip.o0 == 172 && leb 16 ip.o1 && leb ip.o1 31) || (ip.o0 == 192 && ip.o1 == 168)

abbrev pub is_link_local4 : Ipv4Addr → Bool
is_link_local4 ip = ip.o0 == 169 && ip.o1 == 254

abbrev pub is_unspecified4 : Ipv4Addr → Bool
is_unspecified4 ip = ipv4_eq ip unspecified4

abbrev pub is_multicast4 : Ipv4Addr → Bool
is_multicast4 ip = leb 224 ip.o0 && leb ip.o0 239

abbrev pub is_broadcast4 : Ipv4Addr → Bool
is_broadcast4 ip = ipv4_eq ip (ipv4 255 255 255 255)

-- `segments()[i]`.
abbrev pub segment : Ipv6Addr → ℕ → ℕ
segment ip i = get_or ip.octets (i * 2) 0 * 256 + get_or ip.octets (i * 2 + 1) 0

abbrev pub loopback6 : Ipv6Addr
loopback6 = record { octets = 0 ∷ 0 ∷ 0 ∷ 0 ∷ 0 ∷ 0 ∷ 0 ∷ 0 ∷ 0 ∷ 0 ∷ 0 ∷ 0 ∷ 0 ∷ 0 ∷ 0 ∷ 1 ∷ [] }

abbrev pub is_loopback6 : Ipv6Addr → Bool
is_loopback6 ip = ipv6_eq ip loopback6

abbrev pub is_unspecified6 : Ipv6Addr → Bool
is_unspecified6 ip = ipv6_eq ip unspecified6

abbrev pub is_multicast6 : Ipv6Addr → Bool
is_multicast6 ip = get_or ip.octets 0 0 == 255

-- `IpAddr::to_canonical`: `::ffff:a.b.c.d` stands for `a.b.c.d`.
abbrev pub mapped_prefix : Bytes
mapped_prefix = 0 ∷ 0 ∷ 0 ∷ 0 ∷ 0 ∷ 0 ∷ 0 ∷ 0 ∷ 0 ∷ 0 ∷ 255 ∷ 255 ∷ []

abbrev pub to_canonical : IpAddr → IpAddr
to_canonical (v4 ip) = v4 ip
to_canonical (v6 ip) =
    if bytes_eq (take 12 ip.octets) mapped_prefix then v4 (ipv4_from (drop 12 ip.octets)) else v6 ip

abbrev pub to_ipv6_mapped : Ipv4Addr → Ipv6Addr
to_ipv6_mapped ip = record { octets = mapped_prefix ++ octets4 ip }
