-- ===== src/Socks.antt =====
-- src/socks5.rs: the target header that proxy mode writes at the head of each QUIC stream.
pub mod Targets
use link_p2p.Prelude.{
  ℕ, ◌+◌, ◌%◌, ◌≡◌, Bool, Option, none, some, [], ◌∷◌, ◌++◌, ltb, ◌==◌, length, get_or,
  if◌then◌else◌,
}
use link_p2p.Net.{Bytes, SocketAddr, v4, v6, octets4, ipv4_from}
use link_p2p.Outcome.{Msg, Error, Result, ok, err, root, context}
use link_p2p.Wire.{Reader, Read, io, io_context, be16, ◌>>=◌, ◌>>◌, pure, fail}
use link_p2p.Utf8.{is_utf8}

-- A host is a Rust `String`: its UTF-8 bytes.
pub data Target : Type 0 where
  addr : SocketAddr → Target
  domain : Bytes → ℕ → Target

unfoldable pub encode_target : Target → Result Bytes
encode_target (addr a) = elim a.ip [
  | v4 ip ↦ ok (1 ∷ octets4 ip ++ be16 a.port)
  | v6 ip ↦ ok (4 ∷ ip.octets ++ be16 a.port)
]
encode_target (domain host port) =
    if ltb 255 (length host)
    then err (root (Msg.domain_too_long (length host)))
    else ok (3 ∷ length host % 256 ∷ host ++ be16 port)

module _ (r : Reader) where
  unfoldable pub read_v4 : Read Target
  read_v4 = do
    ip ← λ s. io (r.read_exact 4 s)
    port ← λ s. io (r.read_u16 s)
    pure (addr (record { ip = v4 (ipv4_from ip); port = port }))

  unfoldable pub read_v6 : Read Target
  read_v6 = do
    ip ← λ s. io (r.read_exact 16 s)
    port ← λ s. io (r.read_u16 s)
    pure (addr (record { ip = v6 (record { octets = ip }); port = port }))

  -- `too_long` and `not_utf8` are the messages of the caller.
  unfoldable pub read_domain : Msg → Msg → Read Target
  read_domain too_long not_utf8 = do
    len ← λ s. io (r.read_u8 s)
    if ltb 255 len then fail (root too_long) else do
      host ← λ s. io (r.read_exact len s)
      if is_utf8 host
          then (do port ← λ s. io (r.read_u16 s); pure (domain host port))
          else fail (context not_utf8 (root Msg.utf8_error))

  unfoldable pub read_target : Read Target
  unfolding read_v4 read_v6 read_domain
  read_target = do
    kind ← λ s. io_context Msg.reading_target_header (r.read_u8 s)
    if kind == 1
        then read_v4
        else if kind == 4
        then read_v6
        else if kind == 3
        then read_domain Msg.domain_out_of_range Msg.non_utf8_domain
        else fail (root (Msg.unknown_address_type kind))
