-- ===== src/Tests/Proxy.antt =====
-- The proxy's target header, handshake and guard at concrete inputs.
use link_p2p.Prelude.{◌≡◌, some, false, [], ◌∷◌, arith}
use link_p2p.Net.{Ipv4Addr, IsIpv4, v4, SocketAddr, ipv4, u32_of}
use link_p2p.Session.{Conn}
use link_p2p.Ssrf.{is_blocked_v4, check_proxy_target}
use link_p2p.Ssrf.Ranges.{within_any, blocked_ranges, is_blocked_v4-ranges}
use link_p2p.Ssrf.Embedded.{IsVerdict, check_proxy_target-IsVerdict}

abbrev bind_request : Conn
bind_request = record { input = 5 ∷ 1 ∷ 0 ∷ 5 ∷ 2 ∷ 0 ∷ 1 ∷ []; sent = [] }

abbrev router : Ipv4Addr
router = ipv4 192 168 1 1

router_bytes : IsIpv4 router
router_bytes = record {
  byte0 = omega arith;
  byte1 = omega arith;
  byte2 = omega arith;
  byte3 = omega arith;
}

is_blocked_v4-ranges_example : is_blocked_v4 router ≡ within_any blocked_ranges (u32_of router)
is_blocked_v4-ranges_example = is_blocked_v4-ranges router router_bytes

check_proxy_target-IsVerdict_example :
    IsVerdict
      (λ (a : SocketAddr). some a)
      router
      80
      false
      (check_proxy_target (record { ip = v4 router; port = 80 }) false)
check_proxy_target-IsVerdict_example =
    check_proxy_target-IsVerdict (λ (a : SocketAddr). some a) router 80 false router_bytes
