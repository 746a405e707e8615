-- ===== src/Tests.antt =====
-- Runs of the theorems at concrete inputs.
pub mod Stubs
mod Spokes
mod Daemons
mod Mtus
mod Pipes
mod StreamPhones
mod Contacts
mod Control
mod Proxy
mod Roster
mod Sessions
mod Packets
mod Peers
mod Phones
mod Relays
mod Texts
mod Identities
mod Logs
mod Downs
