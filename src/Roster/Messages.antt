-- ===== src/Roster/Messages.antt =====
-- Roster messages on the wire: what one node writes the other reads.
use mathlib.Core.List.{append_assoc}
use link_p2p.Prelude.{
  ℕ, ◌≤◌, ◌<◌, ◌≡◌, refl, Bool, true, false, List, [], ◌∷◌, ◌++◌, length, length-append,
  length-take, take, take-append, drop-append, take_all, min, All, All-take, arith,
}
use link_p2p.Net.{Bytes}
use link_p2p.Outcome.{Msg, ok, err, root}
use link_p2p.Wire.{Reader, be16, u16-be16}
use link_p2p.Endpoint.{Endpoints}
use link_p2p.Roster.{
  RosterEntry, snapshot, joined, left, roster_magic, roster_max_entries, msg_snapshot, encode_hello,
  read_hello, encode_entry, decode_entry, encode_entries, encode_snapshot, encode_joined,
  encode_left, read_entry, read_entries, read_snapshot, read_msg,
}

-- An `Ipv6Addr` has 16 octets; nothing else is asked of an entry.
abbrev pub IsEntry : {NodeId : Type 0} → RosterEntry NodeId → Type 0
IsEntry e = length e.vip6.octets ≡ 16

module _ {NodeId : Type 0} (ids : Endpoints NodeId) where
  length-encode_entry : (e : RosterEntry NodeId) → IsEntry e → length (encode_entry ids e) ≡ 52
  unfolding encode_entry
  length-encode_entry e h =
      omega (arith, ids.as_bytes_length e.id, length-append e.vip6.octets (ids.as_bytes e.id))

  decode-encode_entry :
      (e : RosterEntry NodeId) → IsEntry e → decode_entry ids (encode_entry ids e) ≡ ok (e, 52)
  unfolding decode_entry encode_entry
  decode-encode_entry e h = ground (
    arith,
    ids.as_bytes_length e.id,
    ids.from_as_bytes e.id,
    length-append e.vip6.octets (ids.as_bytes e.id),
    take-append e.vip6.octets (ids.as_bytes e.id),
    drop-append e.vip6.octets (ids.as_bytes e.id),
    take_all 32 (ids.as_bytes e.id),
  )

  module _ (r : Reader) where
    read_entry-append :
        (e : RosterEntry NodeId) (rest : Bytes)
        → IsEntry e
        → read_entry ids r (encode_entry ids e ++ rest) ≡ ok (e, rest)
    unfolding read_entry
    read_entry-append e rest h =
        ground (
          arith,
          r.fills (encode_entry ids e) rest,
          length-encode_entry e h,
          decode-encode_entry e h,
        )

    read_entries-append :
        (es : List (RosterEntry NodeId)) (rest : Bytes)
        → All IsEntry es
        → read_entries ids r (length es) (encode_entries ids es ++ rest) ≡ ok (es, rest)
    unfolding read_entries encode_entries
    read_entries-append [] rest h = refl
    read_entries-append (e ∷ es) rest (he, hes) = ground (
      arith,
      append_assoc (encode_entry ids e) (encode_entries ids es) rest,
      read_entry-append e (encode_entries ids es ++ rest) he,
      read_entries-append es rest hes,
    )

    snapshot_body :
        (es : List (RosterEntry NodeId)) (rest : Bytes)
        → length es ≤ roster_max_entries
        → All IsEntry es
        → read_snapshot ids r (be16 (length es) ++ (encode_entries ids es ++ rest))
          ≡ ok (snapshot es, rest)
    unfolding read_snapshot
    snapshot_body es rest fits h = ground (
      arith,
      r.fills (be16 (length es)) (encode_entries ids es ++ rest),
      u16-be16 (length es),
      read_entries-append es rest h,
    )

    -- A snapshot that the hub encodes is read as the first 4096 of its entries, in order, and the
    -- stream is left at the byte behind it.
    pub read_msg-encode_snapshot :
        (es : List (RosterEntry NodeId)) (rest : Bytes)
        → All IsEntry es
        → read_msg ids r (encode_snapshot ids es ++ rest)
          ≡ ok (snapshot (take (min (length es) roster_max_entries) es), rest)
    unfolding read_msg encode_snapshot
    read_msg-encode_snapshot es rest h =
        let n = min (length es) roster_max_entries in
        let kept = take n es in
        ground (
          arith,
          r.fills (roster_magic ++ msg_snapshot ∷ []) (be16 n ++ (encode_entries ids kept ++ rest)),
          length-take n es,
          snapshot_body kept rest (omega (arith, length-take n es)) (All-take IsEntry n es h),
        )

    -- `Joined` and `Left` announcements are read back with their entry.
    pub read_msg-announcement :
        (e : RosterEntry NodeId) (rest : Bytes)
        → IsEntry e
        → (read_msg ids r (encode_joined ids e ++ rest) ≡ ok (joined e, rest))
          × (read_msg ids r (encode_left ids e ++ rest) ≡ ok (left e, rest))
    unfolding read_msg encode_joined encode_left
    read_msg-announcement e rest h = (
      ground (
        arith,
        r.fills (roster_magic ++ 2 ∷ []) (encode_entry ids e ++ rest),
        read_entry-append e rest h,
      ),
      ground (
        arith,
        r.fills (roster_magic ++ 3 ∷ []) (encode_entry ids e ++ rest),
        read_entry-append e rest h,
      ),
    )

    -- A snapshot whose count is above 4096 is refused before any entry is read, and so is a message
    -- of a type above 3, a `HELLO` among them.
    pub read_msg-refused :
        (kind n : ℕ) (rest : Bytes)
        → roster_max_entries < n
        → n < 65536
        → 3 < kind
        → (read_msg ids r (roster_magic ++ msg_snapshot ∷ be16 n ++ rest)
            ≡ err (root (Msg.roster_too_many n roster_max_entries)))
          × (read_msg ids r (roster_magic ++ kind ∷ rest)
              ≡ err (root (Msg.unknown_roster_type kind)))
    unfolding read_msg
    read_msg-refused kind n rest big word other = (
      ground (
        arith,
        r.fills (roster_magic ++ msg_snapshot ∷ []) (be16 n ++ rest),
        r.fills (be16 n) rest,
        u16-be16 n,
      ),
      ground (arith, r.fills (roster_magic ++ kind ∷ []) rest),
    )

-- The hub learns from a `HELLO` exactly whether the spoke asked to stay hidden.
pub read_hello-encode_hello :
    (r : Reader) (hidden : Bool) (rest : Bytes)
    → read_hello r (encode_hello hidden ++ rest) ≡ ok (hidden, rest)
unfolding read_hello encode_hello
read_hello-encode_hello r true rest = ground (arith, r.fills (roster_magic ++ 4 ∷ 1 ∷ []) rest)
read_hello-encode_hello r false rest = ground (arith, r.fills (roster_magic ++ 4 ∷ 0 ∷ []) rest)
