-- ===== src/Lib.antt =====
-- link-p2p: peer-to-peer tunnels over iroh's QUIC connections. A node serves or dials another one,
-- as a proxy for TCP streams or as a layer-3 TUN mesh; a CLI controls the daemons.
--
-- Which file models which part of the repository, and how.
--   Outcome: src/exit.rs, errors with contexts and the exit code that they map to. An error is a
--     root message, a context around an error, or a coded error; messages are constructors, not the
--     translated texts.
--   Net, Wire, Session: Rust's IP address types, byte streams and TCP connections. A stream is the
--     list of bytes that the other side sends; what tokio's readers do with it is the parameter
--     `Reader`, with the documented behaviour of `read_exact`, `read_u8` and `read_u16` as its laws.
--     `Tcp` adds `write_all`, on a connection whose client stays connected.
--   TunCtl, StreamCtl: src/tun_ctl.rs and src/stream_ctl.rs, the two control protocols. serde_json is
--     the parameter `Json`: what it writes it reads back.
--   Endpoint: iroh's EndpointId as the parameter `Endpoints`, 32 bytes and a strict total order.
--   Roster: src/tun_roster.rs, the messages of the mesh roster and the tie-break of dialling.
--   Socks, Utf8, Handshake: src/socks5.rs, the target header and the SOCKS5 handshake. Errors leave
--     what was sent before them.
--   Ssrf: src/ssrf.rs, the guard on the targets of the proxy.
--   Tun.Phase, Tun.Live: the phase machine and the live snapshot of src/tun/mod.rs, and how
--     src/tun/phone.rs reconciles the phase.
--   Tun.Vip: derivation, choice and exchange of virtual IPs in src/tun/mod.rs, and the check at the
--     head of a session. blake3 is the parameter `Hasher`, and whether an address is free on the host
--     is the argument `ensure_free`.
--   Tun.Packet: addresses and checksums of raw packets, and the ICMP messages of src/tun/mod.rs.
--   Backoff, PathKind: the reconnect backoff of src/runtime.rs and the classification of the open paths
--     of a connection in src/path_kind.rs.
--   Table, Tun.Hub: src/tun/hub.rs, the index of peers and the routing of packets. std's HashMap is an
--     association list, and the cell of the arc_swap crate the parameter `ArcSwap`: `rcu` is one step
--     that returns the previous value. What other tasks do between that step and the load that
--     follows it is an argument. Where the source enqueues a packet, the model returns the receiver.
--   Tun.Phone: src/tun/phone.rs, the active peers and the ringing calls of a phone.
--   ShortCode, Contacts: src/contacts.rs and src/phone_ring.rs, the short codes of ids, the tokens of
--     the command line and the contact book. A text is the list of its code points; the text form of
--     an id is the parameter `IdText`. A result of the token parser is `none` where it panics.
--   Tun.Spoke: src/tun/spoke.rs, the mesh table of a spoke. Tun.Spoke.Steps is the relation of what
--     can happen to the table in any order, with the specification of its direct routes; `Out` stands
--     for the send queue of a connection.
--   Tun.Mtu: the MTU of the interface and the sender of one peer in src/tun/mod.rs.
--   Daemon: the hooks of src/tun/mod.rs and the control handler of src/tun_daemon. Daemon.Client is
--     the other side of the control socket with the probe, Daemon.PidFile the pid file, Daemon.Roles
--     the choice of a role, Daemon.Down the end of a daemon by the down command, with what the probes
--     of each round of its wait meet as a list.
--   Decimal: decimal numbers as std prints and parses them.
--   Pipe: src/pipe.rs, the two directions of a pipe as the sequence of their ends.
--   StreamPhone: the phone plane of src/stream_daemon_unix.rs, one function per event, with its control
--     socket and the channel between them. StreamPhone.Queue is the relation of what can happen to the
--     three together, in any order.
--   Allow: the allow list of src/runtime.rs and the merge of relay lists of src/config.rs.
--   Relays: src/relay_rtt.rs, the cache of round trips and the order of relays from it.
--   Sorting: std's stable sort by a comparison.
--   PathStats: src/path_stats.rs, the log of path samples, its summary, the rates of peers and the order
--     of dials from them. A rate is its two counts, compared by cross multiplication where the source
--     divides them as f64.
--   I18n: src/i18n.rs, the reader of a catalog of translations, the templates of messages and the
--     choice of a language. `String::from_utf8_lossy` is an argument.
--   Identity: src/identity.rs, the file of the secret key. Whether it can be read, opened and written
--     and how much of a text the disk takes is the record `Disk`; the ciphers are the parameter
--     `Ciphers`: what they encrypt they decrypt.
--   Service: src/tun_service.rs, the systemd unit, the launchd property list and the check of the
--     binary of a service.
--   Tests: concrete instances of the parameters and runs of the theorems.
--
-- Integers are natural numbers with their wrap-around written out. Loops are structural recursion;
-- a number is printed with one more than itself as fuel, which is more than its digits;
-- the loop that folds the carries of a checksum has three rounds of fuel, which reach 16 bits from
-- every u32, the allocation of a virtual IP has the source's 64 tries, and a template is read with one
-- more than its length, since every step takes a character away.
--
-- Not modelled: the CLI and its texts, the files of contacts, configuration and relay round trips as TOML
-- and JSON, the spawning of daemons, timers, the platforms' TUN devices and routes, the programs that
-- install a service, and the transport. The order in which a spoke dials its peers is an argument of
-- Tun.Spoke; PathStats says what the source passes there.
pub mod Prelude
pub mod Bits
pub mod Outcome
pub mod Net
pub mod Wire
pub mod TunCtl
pub mod StreamCtl
pub mod Endpoint
pub mod Roster
pub mod Utf8
pub mod Socks
pub mod Session
pub mod Handshake
pub mod Ssrf
pub mod Backoff
pub mod PathKind
pub mod ShortCode
pub mod Contacts
pub mod Daemon
pub mod Decimal
pub mod Allow
pub mod Relays
pub mod I18n
pub mod Identity
pub mod Service
pub mod PathStats
pub mod Pipe
pub mod StreamPhone
pub mod Sorting
pub mod Table
pub mod Tun
pub mod Tests
