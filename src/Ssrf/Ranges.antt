-- ===== src/Ssrf/Ranges.antt =====
-- The blocked IPv4 addresses of src/ssrf.rs as ranges of numbers.
use link_p2p.Prelude.{ℕ, ◌≡◌, refl, Bool, true, false, ◌&&◌, ◌||◌, List, [], ◌∷◌, leb, arith}
use link_p2p.Bits.{and_0xffffff00, and_0xffc00000}
use link_p2p.Net.{
  Ipv4Addr, IsIpv4, u32_of, is_loopback4, is_private4, is_link_local4, is_unspecified4,
  is_multicast4, is_broadcast4,
}
use link_p2p.Ssrf.{is_cgnat, is_6to4_relay_anycast, is_blocked_v4}

abbrev within : ℕ → ℕ → ℕ → Bool
within lo hi n = leb lo n && leb n hi

abbrev pub within_any : List (ℕ × ℕ) → ℕ → Bool
within_any [] n = false
within_any ((lo, hi) ∷ rs) n = within lo hi n || within_any rs n

-- First and last address of each block that the guard names.
abbrev pub blocked_ranges : List (ℕ × ℕ)
blocked_ranges =
    (0x7f00_0000, 0x7fff_ffff)  -- 127.0.0.0/8
    ∷ (0x0a00_0000, 0x0aff_ffff)  -- 10.0.0.0/8
    ∷ (0xac10_0000, 0xac1f_ffff)  -- 172.16.0.0/12
    ∷ (0xc0a8_0000, 0xc0a8_ffff)  -- 192.168.0.0/16
    ∷ (0x6440_0000, 0x647f_ffff)  -- 100.64.0.0/10
    ∷ (0xc058_6300, 0xc058_63ff)  -- 192.88.99.0/24
    ∷ (0xa9fe_0000, 0xa9fe_ffff)  -- 169.254.0.0/16
    ∷ (0x0000_0000, 0x0000_0000)  -- 0.0.0.0
    ∷ (0xe000_0000, 0xefff_ffff)  -- 224.0.0.0/4
    ∷ (0xffff_ffff, 0xffff_ffff)  -- 255.255.255.255
    ∷ []

module _ (ip : Ipv4Addr) (w : IsIpv4 ip) where
  loopback : is_loopback4 ip ≡ within 0x7f00_0000 0x7fff_ffff (u32_of ip)
  loopback = ground arith

  private : is_private4 ip ≡ (
      within 0x0a00_0000 0x0aff_ffff (u32_of ip)
      || within 0xac10_0000 0xac1f_ffff (u32_of ip)
      || within 0xc0a8_0000 0xc0a8_ffff (u32_of ip))
  private = ground arith

  cgnat : is_cgnat ip ≡ within 0x6440_0000 0x647f_ffff (u32_of ip)
  unfolding is_cgnat
  cgnat = rw (and_0xffc00000 (u32_of ip) (omega arith)) (ground arith)

  relay : is_6to4_relay_anycast ip ≡ within 0xc058_6300 0xc058_63ff (u32_of ip)
  unfolding is_6to4_relay_anycast
  relay = rw (and_0xffffff00 (u32_of ip) (omega arith)) (ground arith)

  link_local : is_link_local4 ip ≡ within 0xa9fe_0000 0xa9fe_ffff (u32_of ip)
  link_local = ground arith

  unspecified : is_unspecified4 ip ≡ within 0 0 (u32_of ip)
  unspecified = ground arith

  multicast : is_multicast4 ip ≡ within 0xe000_0000 0xefff_ffff (u32_of ip)
  multicast = ground arith

  broadcast : is_broadcast4 ip ≡ within 0xffff_ffff 0xffff_ffff (u32_of ip)
  broadcast = ground arith

or_regroup :
    (a b c d e f g h i j : Bool)
    → (a || (b || c || d) || e || f || g || h || i || j)
      ≡ (a || (b || (c || (d || (e || (f || (g || (h || (i || (j || false))))))))))
or_regroup true b c d e f g h i j = refl
or_regroup false true c d e f g h i j = refl
or_regroup false false true d e f g h i j = refl
or_regroup false false false d e f g h i j = ground arith

-- An IPv4 address is blocked exactly when its number lies in one of the listed ranges.
pub is_blocked_v4-ranges :
    (ip : Ipv4Addr) → IsIpv4 ip → is_blocked_v4 ip ≡ within_any blocked_ranges (u32_of ip)
unfolding is_blocked_v4
is_blocked_v4-ranges ip w =
    rw
      (
        loopback ip w,
        private ip w,
        cgnat ip w,
        relay ip w,
        link_local ip w,
        unspecified ip w,
        multicast ip w,
        broadcast ip w,
      )
      (or_regroup (within 0x7f00_0000 0x7fff_ffff (u32_of ip))
        (within 0x0a00_0000 0x0aff_ffff (u32_of ip)) (within 0xac10_0000 0xac1f_ffff (u32_of ip))
        (within 0xc0a8_0000 0xc0a8_ffff (u32_of ip)) (within 0x6440_0000 0x647f_ffff (u32_of ip))
        (within 0xc058_6300 0xc058_63ff (u32_of ip)) (within 0xa9fe_0000 0xa9fe_ffff (u32_of ip))
        (within 0 0 (u32_of ip)) (within 0xe000_0000 0xefff_ffff (u32_of ip))
        (within 0xffff_ffff 0xffff_ffff (u32_of ip)))
