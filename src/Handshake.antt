-- ===== src/Handshake.antt =====
-- src/socks5.rs: the SOCKS5 server handshake with local clients, no-auth and CONNECT only.
pub mod Replies
use link_p2p.Prelude.{ℕ, Bool, false, not, ◌||◌, [], ◌∷◌, ◌==◌, get_or, if◌then◌else◌}
use link_p2p.Net.{Bytes}
use link_p2p.Outcome.{Msg, Error, root}
use link_p2p.Wire.{io, io_context}
use link_p2p.Session.{Tcp, Session, ◌>>=◌, ◌>>◌, fail, pure, reads, write_context, write_ok}
use link_p2p.Socks.{Target, read_v4, read_v6, read_domain}

abbrev pub no_auth_selected : Bytes
no_auth_selected = 0x05 ∷ 0x00 ∷ []

abbrev pub no_acceptable : Bytes
no_acceptable = 0x05 ∷ 0xff ∷ []

abbrev reply_of : ℕ → Bytes
reply_of code = 0x05 ∷ code ∷ 0x00 ∷ 0x01 ∷ 0 ∷ 0 ∷ 0 ∷ 0 ∷ 0 ∷ 0 ∷ []

abbrev pub succeeded : Bytes
succeeded = reply_of 0x00

abbrev pub command_not_supported : Bytes
command_not_supported = reply_of 0x07

abbrev pub address_type_not_supported : Bytes
address_type_not_supported = reply_of 0x08

unfoldable pub contains : ℕ → Bytes → Bool
contains x [] = false
contains x (b ∷ bs) = b == x || contains x bs

module _ (tcp : Tcp) where
  -- The greeting, and the choice of the method.
  unfoldable pub greet : Session (Unit {0})
  unfolding contains
  greet = do
    hdr ← reads (λ s. io_context Msg.reading_greeting (tcp.reader.read_exact 2 s))
    if not (get_or hdr 0 0 == 0x05)
        then fail (root (Msg.unsupported_socks_version (get_or hdr 0 0)))
        else do
          methods ← reads (λ s. io (tcp.reader.read_exact (get_or hdr 1 0) s))
          if not (contains 0x00 methods)
              then (do
                write_context tcp Msg.sending_selection no_acceptable
                fail (root Msg.no_acceptable_method))
              else write_context tcp Msg.sending_selection no_auth_selected

  -- `match req[3]`
  unfoldable pub read_request_target : ℕ → Session Target
  read_request_target kind =
      if kind == 0x01
      then reads (read_v4 tcp.reader)
      else if kind == 0x04
      then reads (read_v6 tcp.reader)
      else if kind == 0x03
      then reads
          (read_domain tcp.reader Msg.request_domain_out_of_range Msg.non_utf8_request_domain)
      else (do
        write_ok tcp address_type_not_supported
        fail (root (Msg.unsupported_address_type kind)))

  -- The request, and the success reply.
  unfoldable pub request : Session Target
  unfolding read_request_target
  request = do
    req ← reads (λ s. io_context Msg.reading_request (tcp.reader.read_exact 4 s))
    if not (get_or req 0 0 == 0x05)
        then fail (root (Msg.bad_request_version (get_or req 0 0)))
        else if not (get_or req 1 0 == 0x01)
        then (do
          write_ok tcp command_not_supported
          fail (root (Msg.only_connect (get_or req 1 0))))
        else do
          target ← read_request_target (get_or req 3 0)
          write_context tcp Msg.sending_reply succeeded
          pure target

  unfoldable pub accept_handshake : Session Target
  accept_handshake = do greet; request
