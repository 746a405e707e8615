-- ===== src/Tun/Vip.antt =====
-- src/tun/mod.rs: virtual IPs. Derivation from the EndpointId, choice of a free one, and the exchange
-- with a peer.
pub mod Derived
pub mod Allocated
pub mod Exchanged
pub mod Equal
use link_p2p.Prelude.{
  ℕ, zero, suc, ◌+◌, ◌*◌, ◌/◌, ◌%◌, ◌≡◌, Bool, true, false, ◌||◌, not, Option, none, some, [], ◌∷◌,
  ◌++◌, ◌==◌, length, get_or, take, drop, bytes_eq, bit_and, bit_or, All, if◌then◌else◌,
}
use link_p2p.Net.{
  Bytes, IsByte, Ipv4Addr, Ipv6Addr, u32_of, ipv4_of_u32, ipv4, octets4, is_unspecified4,
  is_broadcast4, is_multicast4, is_unspecified6, is_multicast6,
}
use link_p2p.Outcome.{Msg, Error, Result, ok, err, root, coded, exit_usage}
use link_p2p.Endpoint.{Endpoints}
use link_p2p.Tun.Live.{OwnVips}

-- blake3: 32 bytes.
pub record Hasher : Type 0 where
  pub hash : Bytes → Bytes
  pub hash_length : (bs : Bytes) → length (hash bs) ≡ 32
  pub hash_bytes : (bs : Bytes) → All IsByte (hash bs)

abbrev pub vip_base : ℕ
vip_base = 0xac18_0000

abbrev pub vip_host_mask : ℕ
vip_host_mask = 0x0000_ffff

abbrev pub vip6_prefix_octets : Bytes
vip6_prefix_octets = 0xfd ∷ 0x24 ∷ 0xac ∷ 0x18 ∷ 0 ∷ 0 ∷ 0 ∷ 0 ∷ []

abbrev pub vip_alloc_tries : ℕ
vip_alloc_tries = 64

-- `!VIP_HOST_MASK` is 0xffff_0000.
unfoldable pub vip_in_mesh : Ipv4Addr → Bool
vip_in_mesh ip = bit_and (u32_of ip) 0xffff_0000 == vip_base

unfoldable pub vip6_in_mesh : Ipv6Addr → Bool
vip6_in_mesh ip = bytes_eq (take 8 ip.octets) vip6_prefix_octets

-- `salt.to_le_bytes()`
abbrev le32 : ℕ → Bytes
le32 n = n % 256 ∷ n / 256 % 256 ∷ n / 65536 % 256 ∷ n / 16777216 % 256 ∷ []

module _ (h : Hasher) {NodeId : Type 0} (ids : Endpoints NodeId) where
  salted_hash : NodeId → ℕ → Bytes
  salted_hash id salt = h.hash (ids.as_bytes id ++ le32 salt)

  unfoldable pub derive_vip_salted : NodeId → ℕ → Ipv4Addr
  unfolding salted_hash
  derive_vip_salted id salt =
      let digest = salted_hash id salt in
      let raw = get_or digest 0 0 * 256 + get_or digest 1 0 in
      ipv4_of_u32 (bit_or vip_base (bit_and raw vip_host_mask))

  unfoldable pub derive_vip6_salted : NodeId → ℕ → Ipv6Addr
  unfolding salted_hash
  derive_vip6_salted id salt = record {
    octets = vip6_prefix_octets ++ take 8 (salted_hash id salt);
  }

module _ {A : Type 0} (derive : ℕ → A) (ensure_free : A → Result (Unit {0})) where
  -- `for salt in 0..VIP_ALLOC_TRIES`: `tries` rounds are left, the next one with `salt`.
  unfoldable pub first_free : ℕ → ℕ → Option A
  first_free zero salt = none
  first_free (suc tries) salt = elim (ensure_free (derive salt)) [
    | ok u ↦ some (derive salt)
    | err e ↦ first_free tries (suc salt)
  ]

  unfoldable pub allocate_vip : Option A → Result A
  unfolding first_free
  allocate_vip (some vip) = elim (ensure_free vip) [
    | ok u ↦ ok vip
    | err e ↦ err (coded exit_usage (root Msg.vip_taken))
  ]
  allocate_vip none = elim (first_free vip_alloc_tries 0) [
    | some vip ↦ ok vip
    | none ↦ err (coded exit_usage (root Msg.vip_exhausted))
  ]

-- "L3VP"
abbrev pub exchange_magic : Bytes
exchange_magic = b'L' ∷ b'3' ∷ b'V' ∷ b'P' ∷ []

-- The 24 bytes that `exchange_peer_vips` sends.
unfoldable pub exchange_buf : OwnVips → Bytes
exchange_buf own = exchange_magic ++ octets4 own.v4 ++ own.v6.octets

-- What it makes of the 24 bytes that it received.
unfoldable pub peer_vips : Bytes → Result OwnVips
peer_vips buf =
    let peer : OwnVips = record {
      v4 = ipv4 (get_or buf 4 0) (get_or buf 5 0) (get_or buf 6 0) (get_or buf 7 0);
      v6 = record { octets = take 16 (drop 8 buf) };
    } in
    if not (bytes_eq (take 4 buf) exchange_magic)
    then err (root Msg.bad_vip_magic)
    else if is_unspecified4 peer.v4 || is_broadcast4 peer.v4 || is_multicast4 peer.v4
    then err (root Msg.unusable_vip)
    else if is_unspecified6 peer.v6 || is_multicast6 peer.v6
    then err (root Msg.unusable_vip)
    else ok peer

-- `vip == own`, by octets.
abbrev pub same4 : Ipv4Addr → Ipv4Addr → Bool
same4 = link_p2p.Net.ipv4_eq

abbrev pub same6 : Ipv6Addr → Ipv6Addr → Bool
same6 = link_p2p.Net.ipv6_eq

-- The check at the head of a hub's spoke session and of a phone session.
unfoldable pub admit_vips : OwnVips → OwnVips → Result OwnVips
admit_vips own peer =
    if same4 peer.v4 own.v4
      || same6 peer.v6 own.v6
      || not (vip_in_mesh peer.v4)
      || not (vip6_in_mesh peer.v6)
    then err (root Msg.unusable_vip)
    else ok peer
