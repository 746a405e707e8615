-- ===== src/Ssrf/Embedded.antt =====
-- IPv6 addresses that carry an IPv4 address, and the special IPv6 prefixes, in src/ssrf.rs.
use link_p2p.Prelude.{
  ℕ, ◌+◌, ◌*◌, ◌/◌, ◌≤◌, ◌<◌, ◌≡◌, refl, ◌≢◌, ◌⊎◌, inl, inr, Bool, Option, true, false, [], ◌∷◌,
  ◌++◌, arith, none, sym, ◌∙◌, Bool-cases, if◌then◌else◌,
}
use link_p2p.Bits.{and_0xfe00, and_0xffc0}
use link_p2p.Net.{Bytes, Ipv4Addr, Ipv6Addr, IsIpv4, v4, v6, SocketAddr, u32_of, octets4}
use link_p2p.Outcome.{Result, ok, err}
use link_p2p.Ssrf.Ranges.{within_any, blocked_ranges, is_blocked_v4-ranges}
use link_p2p.Ssrf.{
  CheckedTarget, embedded_ipv4, is_blocked_v4, is_ula, is_link_local6, is_teredo,
  is_blocked_v6_native, is_blocked_v6, is_blocked_ip, is_blocked_target, check_proxy_target,
  dial_checked,
}

-- The NAT64 well-known prefix, 6to4 with any tail, and the deprecated compatible form.
abbrev pub nat64 : Ipv4Addr → Ipv6Addr
nat64 ip = record {
  octets = 0x00 ∷ 0x64 ∷ 0xff ∷ 0x9b ∷ 0 ∷ 0 ∷ 0 ∷ 0 ∷ 0 ∷ 0 ∷ 0 ∷ 0 ∷ [] ++ octets4 ip;
}

abbrev pub sixto4 : Ipv4Addr → Bytes → Ipv6Addr
sixto4 ip tail = record { octets = 0x20 ∷ 0x02 ∷ ip.o0 ∷ ip.o1 ∷ ip.o2 ∷ ip.o3 ∷ tail }

abbrev pub compatible : Ipv4Addr → Ipv6Addr
compatible ip = record { octets = 0 ∷ 0 ∷ 0 ∷ 0 ∷ 0 ∷ 0 ∷ 0 ∷ 0 ∷ 0 ∷ 0 ∷ 0 ∷ 0 ∷ [] ++ octets4 ip }

module _ (b0 b1 b2 b3 : ℕ) (tail : Bytes) (byte0 : b0 < 256) (byte1 : b1 < 256) where
  abbrev pub address : Ipv6Addr
  address = record { octets = b0 ∷ b1 ∷ b2 ∷ b3 ∷ tail }

  no_embedding : 0x20 ≤ b0 → b0 * 256 + b1 ≢ 0x2002 → embedded_ipv4 address ≡ none
  unfolding embedded_ipv4
  no_embedding big other = ground arith

  own_path :
      0x20 ≤ b0
      → b0 * 256 + b1 ≢ 0x2002
      → is_blocked_ip (v6 address)
        ≡ (if is_teredo address then true else is_blocked_v6_native address)
  unfolding is_blocked_ip is_blocked_v6
  own_path big other = ground (arith, no_embedding big other)

  is_ula_lem : b0 / 2 ≡ 126 → is_ula address ≡ true
  unfolding is_ula
  is_ula_lem h = rw (and_0xfe00 (b0 * 256 + b1) (omega arith)) (ground arith)

  is_link_local6_lem : b0 ≡ 0xfe → b1 / 64 ≡ 2 → is_link_local6 address ≡ true
  unfolding is_link_local6
  is_link_local6_lem h k = rw (and_0xffc0 (b0 * 256 + b1) (omega arith)) (ground arith)

  native_blocked :
      (is_ula address ≡ true) ⊎ (is_link_local6 address ≡ true) ⊎ (b0 ≡ 0xff)
      → is_blocked_v6_native address ≡ true
  unfolding is_blocked_v6_native
  native_blocked h = ground arith

  teredo : b0 ≡ 0x20 → b1 ≡ 0x01 → b2 ≡ 0 → b3 ≡ 0 → is_teredo address ≡ true
  unfolding is_teredo
  teredo h k l m = ground arith

  -- Unique local (fc00::/7), link-local (fe80::/10), multicast (ff00::/8) and Teredo (2001::/32)
  -- addresses are blocked, whatever their other octets are.
  pub is_blocked_ip-prefixes :
      (b0 / 2 ≡ 126)
        ⊎ ((b0 ≡ 0xfe) × (b1 / 64 ≡ 2))
        ⊎ (b0 ≡ 0xff)
        ⊎ ((b0 ≡ 0x20) × (b1 ≡ 0x01) × (b2 ≡ 0) × (b3 ≡ 0))
      → is_blocked_ip (v6 address) ≡ true
  is_blocked_ip-prefixes (inl h) =
      ground (arith, own_path (omega arith) (omega arith), native_blocked (inl (is_ula_lem h)))
  is_blocked_ip-prefixes (inr (inl (h, k))) = ground (
    arith,
    own_path (omega arith) (omega arith),
    native_blocked (inr (inl (is_link_local6_lem h k))),
  )
  is_blocked_ip-prefixes (inr (inr (inl h))) =
      ground (arith, own_path (omega arith) (omega arith), native_blocked (inr (inr h)))
  is_blocked_ip-prefixes (inr (inr (inr (h, k, l, m)))) =
      ground (arith, own_path (omega arith) (omega arith), teredo h k l m)

-- The verdict of the guard on the IPv4 address `ip`: what it lets through is dialled at the address
-- that was checked, and is public unless private dials are allowed; what it refuses is in one of
-- the blocked ranges.
abbrev pub IsVerdict :
    {S : Type 0} → (SocketAddr → Option S) → Ipv4Addr → ℕ → Bool → Result CheckedTarget → Type 0
IsVerdict connect ip port allow_private (ok c) =
    (dial_checked connect c ≡ connect (record { ip = v4 ip; port = port }))
    × ((allow_private ≡ true) ⊎ (within_any blocked_ranges (u32_of ip) ≡ false))
IsVerdict connect ip port allow_private (err e) =
    (allow_private ≡ false) × (within_any blocked_ranges (u32_of ip) ≡ true)

-- An IPv4 target is dialled, at the address that was checked, if private dials are allowed or the
-- address lies in none of the blocked ranges; it is refused if it lies in one and they are not.
pub check_proxy_target-IsVerdict :
    {S : Type 0} (connect : SocketAddr → Option S) (ip : Ipv4Addr) (port : ℕ) (allow_private : Bool)
    → IsIpv4 ip
    → IsVerdict connect ip port allow_private
        (check_proxy_target (record { ip = v4 ip; port = port }) allow_private)
unfolding check_proxy_target dial_checked is_blocked_target is_blocked_ip
check_proxy_target-IsVerdict connect ip port true w = (refl, inl refl)
check_proxy_target-IsVerdict connect ip port false w = elim (Bool-cases (is_blocked_v4 ip)) [
  | inl blocked ↦ rw blocked (refl, sym (is_blocked_v4-ranges ip w) ∙ blocked)
  | inr free ↦ rw free (refl, inr (sym (is_blocked_v4-ranges ip w) ∙ free))
]
