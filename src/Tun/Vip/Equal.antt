-- ===== src/Tun/Vip/Equal.antt =====
-- Equality on the virtual IPs of src/tun/mod.rs, as the keys of maps.
use link_p2p.Prelude.{◌≡◌, ◌↔◌, ap, true, arith, bytes_eq_self, bytes_eq→eq}
use link_p2p.Net.{Ipv4Addr, Ipv6Addr, ipv4_eq, ipv6_eq}
use link_p2p.Table.{Keys}

pub ipv4_eq_iff : (a b : Ipv4Addr) → (ipv4_eq a b ≡ true) ↔ (a ≡ b)
ipv4_eq_iff a b = ground arith

pub ipv6_eq_iff : (a b : Ipv6Addr) → (ipv6_eq a b ≡ true) ↔ (a ≡ b)
ipv6_eq_iff a b = (
  λ h. ap (λ os. record { octets = os }) (bytes_eq→eq a.octets b.octets h),
  λ h. rw h (bytes_eq_self b.octets),
)

abbrev pub v4_keys : Keys Ipv4Addr
v4_keys = record { same = ipv4_eq; same_iff = ipv4_eq_iff }

abbrev pub v6_keys : Keys Ipv6Addr
v6_keys = record { same = ipv6_eq; same_iff = ipv6_eq_iff }
