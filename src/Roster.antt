-- ===== src/Roster.antt =====
-- src/tun_roster.rs: the reliable mesh roster. Magic `LPR3`, a type byte, and entries of 52 bytes:
-- IPv4 (4), IPv6 (16), EndpointId (32).
pub mod Messages
pub mod Dialing
use link_p2p.Prelude.{
  ℕ, zero, suc, ◌+◌, ◌*◌, ◌/◌, ◌%◌, ◌≡◌, Bool, true, false, not, Option, none, some, List, [], ◌∷◌,
  ◌++◌, ltb, ◌==◌, length, get_or, take, drop, bytes_eq, bit_and, min, if◌then◌else◌,
}
use link_p2p.Net.{Bytes, Ipv4Addr, Ipv6Addr, ipv4, octets4}
use link_p2p.Outcome.{Msg, Error, Result, ok, err, root, context}
use link_p2p.Wire.{Reader, Read, ◌>>=◌, ◌>>◌, pure, fail, lift, io, be16}
use link_p2p.Endpoint.{Endpoints}

-- "LPR3"
abbrev pub roster_magic : Bytes
roster_magic = b'L' ∷ b'P' ∷ b'R' ∷ b'3' ∷ []

abbrev pub msg_snapshot : ℕ
msg_snapshot = 1

abbrev pub msg_joined : ℕ
msg_joined = 2

abbrev pub msg_left : ℕ
msg_left = 3

abbrev pub msg_hello : ℕ
msg_hello = 4

abbrev pub hello_flag_hidden : ℕ
hello_flag_hidden = 1

abbrev pub entry_len : ℕ
entry_len = 52

abbrev pub roster_max_entries : ℕ
roster_max_entries = 4096

pub record RosterEntry (NodeId : Type 0) : Type 0 where
  pub vip : Ipv4Addr
  pub vip6 : Ipv6Addr
  pub id : NodeId

pub data RosterMsg (NodeId : Type 0) : Type 0 where
  snapshot : List (RosterEntry NodeId) → RosterMsg NodeId
  joined left : RosterEntry NodeId → RosterMsg NodeId

unfoldable pub encode_hello : Bool → Bytes
encode_hello hidden = roster_magic ++ msg_hello ∷ (if hidden then hello_flag_hidden else 0) ∷ []

-- `u16::try_from(n).unwrap_or(u16::MAX)`
abbrev u16_or_max : ℕ → ℕ
u16_or_max n = if ltb 65535 n then 65535 else n

module _ {NodeId : Type 0} (ids : Endpoints NodeId) where
  unfoldable pub encode_entry : RosterEntry NodeId → Bytes
  encode_entry e = octets4 e.vip ++ e.vip6.octets ++ ids.as_bytes e.id

  unfoldable pub decode_entry : Bytes → Result (RosterEntry NodeId × ℕ)
  decode_entry buf =
      if ltb (length buf) entry_len
      then err (root Msg.roster_entry_truncated)
      else elim (ids.from_bytes (take 32 (drop 20 buf))) [
        | none ↦ err (context Msg.invalid_roster_id (root Msg.invalid_endpoint))
        | some id ↦ ok (
          record {
            vip = ipv4 (get_or buf 0 0) (get_or buf 1 0) (get_or buf 2 0) (get_or buf 3 0);
            vip6 = record { octets = take 16 (drop 4 buf) };
            id = id;
          },
          entry_len,
        )
      ]

  encode_entries : List (RosterEntry NodeId) → Bytes
  encode_entries [] = []
  encode_entries (e ∷ es) = encode_entry e ++ encode_entries es

  unfoldable pub encode_snapshot : List (RosterEntry NodeId) → Bytes
  unfolding encode_entries
  encode_snapshot entries =
      let n = min (length entries) roster_max_entries in
      roster_magic ++ msg_snapshot ∷ be16 (u16_or_max n) ++ encode_entries (take n entries)

  unfoldable pub encode_joined : RosterEntry NodeId → Bytes
  encode_joined entry = roster_magic ++ msg_joined ∷ encode_entry entry

  unfoldable pub encode_left : RosterEntry NodeId → Bytes
  encode_left entry = roster_magic ++ msg_left ∷ encode_entry entry

  module _ (r : Reader) where
    read_entry : Read (RosterEntry NodeId)
    read_entry = do buf ← λ s. io (r.read_exact entry_len s); p ← lift (decode_entry buf); pure p.0

    -- `for _ in 0..n { … entries.push(e) }`
    read_entries : ℕ → Read (List (RosterEntry NodeId))
    read_entries zero = pure []
    read_entries (suc n) = do e ← read_entry; es ← read_entries n; pure (e ∷ es)

    read_snapshot : Read (RosterMsg NodeId)
    read_snapshot = do
      nb ← λ s. io (r.read_exact 2 s)
      let n = get_or nb 0 0 * 256 + get_or nb 1 0
      if ltb roster_max_entries n
          then fail (root (Msg.roster_too_many n roster_max_entries))
          else (do es ← read_entries n; pure (RosterMsg.snapshot es))

    unfoldable pub read_msg : Read (RosterMsg NodeId)
    unfolding read_snapshot read_entries read_entry
    read_msg = do
      hdr ← λ s. io (r.read_exact 5 s)
      let kind = get_or hdr 4 0
      if not (bytes_eq (take 4 hdr) roster_magic)
          then fail (root Msg.bad_roster_magic)
          else if kind == msg_snapshot
          then read_snapshot
          else if kind == msg_joined
          then (do e ← read_entry; pure (RosterMsg.joined e))
          else if kind == msg_left
          then (do e ← read_entry; pure (RosterMsg.left e))
          else fail (root (Msg.unknown_roster_type kind))

  -- Tie-break: the lower id dials.
  unfoldable pub should_dial : NodeId → NodeId → Bool
  should_dial own peer = ids.less own peer

-- Whether the spoke asked to stay hidden.
unfoldable pub read_hello : Reader → Read Bool
read_hello r = do
  hdr ← λ s. io (r.read_exact 6 s)
  if not (bytes_eq (take 4 hdr) roster_magic)
      then fail (root Msg.bad_roster_magic)
      else if not (get_or hdr 4 0 == msg_hello)
      then fail (root (Msg.expected_hello (get_or hdr 4 0)))
      else pure (not (bit_and (get_or hdr 5 0) hello_flag_hidden == 0))
