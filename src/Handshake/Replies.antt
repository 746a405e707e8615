-- ===== src/Handshake/Replies.antt =====
-- What the SOCKS5 handshake of src/socks5.rs sends, and which target it returns.
use mathlib.Core.List.{append_assoc}
use link_p2p.Prelude.{ℕ, ◌%◌, ◌<◌, ◌≡◌, ◌⊎◌, true, false, [], ◌∷◌, ◌++◌, length, arith}
use link_p2p.Net.{Bytes, IpAddr, v4, v6, octets4}
use link_p2p.Wire.{be16}
use link_p2p.Outcome.{Msg, Result, ok, err, root}
use link_p2p.Session.{Conn, Tcp}
use link_p2p.Socks.{Target, addr, domain, encode_target}
use link_p2p.Socks.Targets.{IsIp, IsTarget, read_v4-append, read_v6-append, read_domain-append}
use link_p2p.Handshake.{
  no_auth_selected, no_acceptable, succeeded, command_not_supported, address_type_not_supported,
  contains, greet, read_request_target, request, accept_handshake,
}

abbrev GreetSends : Conn → Result (Unit {0}) × Conn → Type 0
GreetSends c (ok _, c') = c'.sent ≡ c.sent ++ no_auth_selected
GreetSends c (err _, c') = (c'.sent ≡ c.sent) ⊎ (c'.sent ≡ c.sent ++ no_acceptable)

abbrev RequestSends : Conn → Result Target × Conn → Type 0
RequestSends c (ok _, c') = c'.sent ≡ c.sent ++ succeeded
RequestSends c (err _, c') =
    (c'.sent ≡ c.sent)
    ⊎ (c'.sent ≡ c.sent ++ command_not_supported)
    ⊎ (c'.sent ≡ c.sent ++ address_type_not_supported)

-- What was sent by a handshake from `c` to its end.
abbrev pub HandshakeSends : Conn → Result Target × Conn → Type 0
HandshakeSends c (ok _, c') = c'.sent ≡ c.sent ++ (no_auth_selected ++ succeeded)
HandshakeSends c (err _, c') =
    (c'.sent ≡ c.sent)
    ⊎ (c'.sent ≡ c.sent ++ no_acceptable)
    ⊎ (c'.sent ≡ c.sent ++ no_auth_selected)
    ⊎ (c'.sent ≡ c.sent ++ (no_auth_selected ++ command_not_supported))
    ⊎ (c'.sent ≡ c.sent ++ (no_auth_selected ++ address_type_not_supported))

module _ (tcp : Tcp) where
  -- `bs` is an address type and an address that the handshake reads as `t`.
  abbrev IsRequest : Target → Bytes → Bytes → Type 0
  IsRequest t bs rest =
      (kind : ℕ) × (tail : Bytes) × (bs ≡ kind ∷ tail)
      × ((sent : Bytes)
          → read_request_target tcp kind (record { input = tail ++ rest; sent = sent })
            ≡ (ok t, record { input = rest; sent = sent }))

  greet-offered :
      (methods rest sent : Bytes)
      → contains 0x00 methods ≡ true
      → greet tcp (record { input = 0x05 ∷ length methods ∷ methods ++ rest; sent = sent })
        ≡ (ok tt, record { input = rest; sent = sent ++ no_auth_selected })
  unfolding greet
  greet-offered methods rest sent h = ground (
    arith,
    tcp.reader.fills (5 ∷ length methods ∷ []) (methods ++ rest),
    tcp.reader.fills methods rest,
    tcp.delivers no_auth_selected sent,
  )

  target-read_ip :
      (ip : IpAddr) (p : ℕ) (bs rest : Bytes)
      → p < 65536
      → IsIp ip
      → encode_target (addr (record { ip = ip; port = p })) ≡ ok bs
      → IsRequest (addr (record { ip = ip; port = p })) bs rest
  unfolding encode_target read_request_target
  target-read_ip (v4 ip) p bs rest hp hi h = (
    1,
    octets4 ip ++ be16 p,
    ground arith,
    λ sent.
        ground
          (arith, append_assoc (octets4 ip) (be16 p) rest, read_v4-append tcp.reader ip p rest hp),
  )
  target-read_ip (v6 ip) p bs rest hp hi h = (
    4,
    ip.octets ++ be16 p,
    ground arith,
    λ sent.
        ground
          (arith, append_assoc ip.octets (be16 p) rest, read_v6-append tcp.reader ip p rest hp hi),
  )

  target-read :
      (t : Target) (bs rest : Bytes) → IsTarget t → encode_target t ≡ ok bs → IsRequest t bs rest
  unfolding encode_target read_request_target
  target-read (addr a) bs rest (p, i) h = target-read_ip a.ip a.port bs rest p i h
  target-read (domain host port) bs rest (p, u) h = (
    3,
    length host % 256 ∷ host ++ be16 port,
    ground arith,
    λ sent. ground (
      arith,
      append_assoc host (be16 port) rest,
      read_domain-append tcp.reader Msg.request_domain_out_of_range Msg.non_utf8_request_domain host
          port rest p,
    ),
  )

  request-connect :
      (t : Target) (bs rest sent : Bytes) (rsv : ℕ)
      → IsTarget t
      → encode_target t ≡ ok bs
      → request tcp (record { input = 0x05 ∷ 0x01 ∷ rsv ∷ bs ++ rest; sent = sent })
        ≡ (ok t, record { input = rest; sent = sent ++ succeeded })
  unfolding request
  request-connect t bs rest sent rsv ht he =
      let (kind, tail, e, reads) = target-read t bs rest ht he in
      ground (
        arith,
        tcp.reader.fills (0x05 ∷ 0x01 ∷ rsv ∷ kind ∷ []) (tail ++ rest),
        reads sent,
        tcp.delivers succeeded sent,
      )

  -- A client that offers no-auth among its methods and asks to connect to `t`, which it writes the
  -- way `encode_target` does, gets `t` accepted; the stream is left at the first byte of the payload.
  pub accept_handshake-connect :
      (t : Target) (methods bs rest sent : Bytes) (rsv : ℕ)
      → IsTarget t
      → encode_target t ≡ ok bs
      → contains 0x00 methods ≡ true
      → accept_handshake tcp (record {
        input = 0x05 ∷ length methods ∷ methods ++ (0x05 ∷ 0x01 ∷ rsv ∷ bs ++ rest);
        sent = sent;
      })
        ≡ (ok t, record { input = rest; sent = sent ++ (no_auth_selected ++ succeeded) })
  unfolding accept_handshake
  accept_handshake-connect t methods bs rest sent rsv ht he hm = ground (
    arith,
    greet-offered methods (0x05 ∷ 0x01 ∷ rsv ∷ bs ++ rest) sent hm,
    request-connect t bs rest (sent ++ no_auth_selected) rsv ht he,
    append_assoc sent no_auth_selected succeeded,
  )

  -- A client that does not offer no-auth is sent exactly `05 FF`, and the handshake fails.
  pub accept_handshake-no_method :
      (methods rest sent : Bytes)
      → contains 0x00 methods ≡ false
      → accept_handshake tcp
          (record { input = 0x05 ∷ length methods ∷ methods ++ rest; sent = sent })
        ≡ (
          err (root Msg.no_acceptable_method),
          record { input = rest; sent = sent ++ no_acceptable },
        )
  unfolding accept_handshake greet
  accept_handshake-no_method methods rest sent h = ground (
    arith,
    tcp.reader.fills (5 ∷ length methods ∷ []) (methods ++ rest),
    tcp.reader.fills methods rest,
    tcp.delivers no_acceptable sent,
  )
