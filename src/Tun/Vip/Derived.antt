-- ===== src/Tun/Vip/Derived.antt =====
-- Derived virtual IPs of src/tun/mod.rs lie in the mesh.
use link_p2p.Prelude.{
  ℕ, ◌+◌, ◌*◌, ◌%◌, ◌<◌, ◌≡◌, refl, ap, ◌∙◌, true, [], ◌∷◌, get_or, All, arith, bit_and, bit_or,
}
use native.Mathlib.Nat.{mod-eq_of_lt}
use link_p2p.Bits.{and_0xffff, and_0xffff0000, or_0xac180000}
use link_p2p.Net.{Bytes, IsByte, u32_of, ipv4_of_u32}
use link_p2p.Endpoint.{Endpoints}
use link_p2p.Tun.Vip.{
  Hasher, vip_base, vip_host_mask, vip_in_mesh, vip6_in_mesh, salted_hash, derive_vip_salted,
  derive_vip6_salted,
}

host_part : (raw : ℕ) → raw < 65536 → bit_or vip_base (bit_and raw vip_host_mask) ≡ vip_base + raw
host_part raw h =
    rw (and_0xffff raw)
      (or_0xac180000 (raw % 65536) (omega arith) ∙ ap (λ (t : ℕ). vip_base + t) (mod-eq_of_lt h))

u32_of-ipv4_of_u32 : (n : ℕ) → n < 4294967296 → u32_of (ipv4_of_u32 n) ≡ n
u32_of-ipv4_of_u32 n h = omega arith

host-mesh :
    (raw : ℕ)
    → raw < 65536
    → vip_in_mesh (ipv4_of_u32 (bit_or vip_base (bit_and raw vip_host_mask))) ≡ true
unfolding vip_in_mesh
host-mesh raw h = ground (
  arith,
  host_part raw h,
  u32_of-ipv4_of_u32 (vip_base + raw) (omega arith),
  and_0xffff0000 (vip_base + raw) (omega arith),
)

first_bytes : (bs : Bytes) → All IsByte bs → get_or bs 0 0 * 256 + get_or bs 1 0 < 65536
first_bytes [] h = omega arith
first_bytes (a ∷ []) h = omega arith
first_bytes (a ∷ b ∷ bs) h = omega arith

module _ (h : Hasher) {NodeId : Type 0} (ids : Endpoints NodeId) where
  -- Whatever the endpoint and the salt, the derived addresses lie in 172.24.0.0/16 and
  -- fd24:ac18::/64.
  pub derive_vip-mesh :
      (id : NodeId) (salt : ℕ)
      → (vip_in_mesh (derive_vip_salted h ids id salt) ≡ true)
        × (vip6_in_mesh (derive_vip6_salted h ids id salt) ≡ true)
  unfolding vip6_in_mesh derive_vip_salted derive_vip6_salted
  derive_vip-mesh id salt = (
    host-mesh
        (get_or (salted_hash h ids id salt) 0 0 * 256 + get_or (salted_hash h ids id salt) 1 0)
        (first_bytes (salted_hash h ids id salt) (h.hash_bytes _)),
    refl,
  )
