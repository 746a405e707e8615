-- ===== src/Tun/Vip/Exchanged.antt =====
-- The virtual IPs that two nodes of src/tun/mod.rs tell each other.
use link_p2p.Prelude.{◌≡◌, true, false, ◌||◌, [], ◌∷◌, length, take_all, arith}
use link_p2p.Bits.{and_0xffff0000}
use link_p2p.Net.{
  Bytes, Ipv4Addr, IsIpv4, u32_of, is_unspecified4, is_broadcast4, is_multicast4, is_unspecified6,
  is_multicast6,
}
use link_p2p.Outcome.{ok, ◌>>=◌}
use link_p2p.Tun.Live.{OwnVips}
use link_p2p.Tun.Vip.{exchange_buf, peer_vips, vip_in_mesh, vip6_in_mesh, same4, same6, admit_vips}

mesh_v4_usable :
    (ip : Ipv4Addr)
    → IsIpv4 ip
    → vip_in_mesh ip ≡ true
    → (is_unspecified4 ip || is_broadcast4 ip || is_multicast4 ip) ≡ false
unfolding vip_in_mesh
mesh_v4_usable ip w h =
    let first : ip.o0 ≡ 172 = ground (arith, and_0xffff0000 (u32_of ip) (omega arith)) in
    ground arith

mesh_v6_usable :
    (octets : Bytes)
    → vip6_in_mesh (record { octets = octets }) ≡ true
    → (is_unspecified6 (record { octets = octets }) || is_multicast6 (record { octets = octets }))
      ≡ false
unfolding vip6_in_mesh
mesh_v6_usable [] h = ground arith
mesh_v6_usable (b ∷ bs) h = ground arith

-- A node whose own addresses lie in the mesh is understood: the peer reads back exactly the pair of
-- addresses that was sent.
peer_vips-exchange_buf :
    (own : OwnVips)
    → IsIpv4 own.v4
    → length own.v6.octets ≡ 16
    → vip_in_mesh own.v4 ≡ true
    → vip6_in_mesh own.v6 ≡ true
    → peer_vips (exchange_buf own) ≡ ok own
unfolding peer_vips exchange_buf
peer_vips-exchange_buf own w l m4 m6 = ground (
  arith,
  take_all 16 own.v6.octets (omega arith),
  mesh_v4_usable own.v4 w m4,
  mesh_v6_usable own.v6.octets m6,
)

-- Own addresses that a session may be opened with.
pub record IsMeshVips (own : OwnVips) : Type 0 where
  pub bytes4 : IsIpv4 own.v4
  pub octets16 : length own.v6.octets ≡ 16
  pub mesh4 : vip_in_mesh own.v4 ≡ true
  pub mesh6 : vip6_in_mesh own.v6 ≡ true

-- Two nodes with addresses in the mesh that differ in both families admit each other, each with
-- exactly the addresses that the other one has.
pub admit_vips-exchange :
    (a b : OwnVips)
    → IsMeshVips a
    → IsMeshVips b
    → same4 a.v4 b.v4 ≡ false
    → same6 a.v6 b.v6 ≡ false
    → same4 b.v4 a.v4 ≡ false
    → same6 b.v6 a.v6 ≡ false
    → ((peer_vips (exchange_buf b) >>= admit_vips a) ≡ ok b)
      × ((peer_vips (exchange_buf a) >>= admit_vips b) ≡ ok a)
unfolding admit_vips
admit_vips-exchange a b ha hb d4 d6 e4 e6 = (
  rw (peer_vips-exchange_buf b hb.bytes4 hb.octets16 hb.mesh4 hb.mesh6)
      (ground (arith, hb.mesh4, hb.mesh6)),
  rw (peer_vips-exchange_buf a ha.bytes4 ha.octets16 ha.mesh4 ha.mesh6)
      (ground (arith, ha.mesh4, ha.mesh6)),
)
