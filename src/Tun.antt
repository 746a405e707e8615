-- ===== src/Tun.antt =====
-- src/tun: the TUN data plane. Layer-3 packets over QUIC datagrams, between a hub and its spokes or
-- between two phones.
pub mod Phase
pub mod Live
pub mod Vip
pub mod Packet
pub mod Hub
pub mod Phone
pub mod Spoke
pub mod Mtu
