-- ===== src/TunCtl.antt =====
-- src/tun_ctl.rs: the control protocol between the CLI and the TUN daemon. A frame is the magic
-- `LPC1`, a version byte, the body's length as a big-endian u32 and a JSON body.
pub mod Frames
pub mod Versions
pub mod Slices
use link_p2p.Prelude.{
  ℕ, ◌+◌, ◌^◌, ◌≡◌, Bool, true, false, Option, none, some, List, [], ◌∷◌, ◌++◌, ltb, ◌==◌, length,
  get_or, take, drop, bytes_eq, if◌then◌else◌,
}
use link_p2p.Net.{Bytes, Ipv4Addr, Ipv6Addr}
use link_p2p.Outcome
use link_p2p.Outcome.{
  Msg, Mismatch, Error, Result, ok, err, root, context, coded, with_context, or_err, exit_usage,
  exit_other,
}
use link_p2p.Wire.{Reader, Read, ◌>>=◌, ◌>>◌, pure, fail, lift, io_context, be32, u32_from_be}

-- "LPC1"
abbrev pub ctl_magic : Bytes
ctl_magic = b'L' ∷ b'P' ∷ b'C' ∷ b'1' ∷ []

abbrev pub ctl_version : ℕ
ctl_version = 2

abbrev pub min_supported_version : ℕ
min_supported_version = 2

abbrev pub ctl_max_body : ℕ
ctl_max_body = 1048576

abbrev pub ctl_max_peers : ℕ
ctl_max_peers = 4096

pub record CtlPeer : Type 0 where
  pub vip : Ipv4Addr
  pub vip6 : Ipv6Addr
  pub id : Bytes

pub record PendingCall : Type 0 where
  pub peer : Bytes
  pub since_unix_ms : ℕ
  pub direction : Bytes

pub data CtlRequest : Type 0 where
  status peers shutdown : CtlRequest
  call accept reject : Bytes → CtlRequest

pub record StatusReport : Type 0 where
  pub role : Bytes
  pub uptime_secs : ℕ
  pub vip : Ipv4Addr
  pub vip6 : Ipv6Addr
  pub path_kind : Bytes
  pub session : Bytes
  pub pending_calls : List PendingCall

-- The exit code of `error` is an i32, as its bit pattern.
pub data CtlResponse : Type 0 where
  status_is : StatusReport → CtlResponse
  peers_are : List CtlPeer → CtlResponse
  done : CtlResponse
  error : ℕ → Msg → CtlResponse

-- serde_json for one type: what it writes, it reads back.
pub record Json (A : Type 0) : Type 0 where
  pub to_vec : A → Option Bytes
  pub from_slice : Bytes → Option A
  pub reads_back : (a : A) (b : Bytes) → to_vec a ≡ some b → from_slice b ≡ some a

unfoldable pub encode_frame : ℕ → Bytes → Result Bytes
encode_frame version body =
    if ltb 4294967295 (length body)
    then err (root Msg.control_body_too_large)
    else if ltb ctl_max_body (length body)
    then err (root (Msg.control_body_exceeds_max ctl_max_body))
    else ok (ctl_magic ++ version ∷ be32 (length body) ++ body)

-- `hdr` has nine bytes.
unfoldable pub parse_header : Bytes → Result (ℕ × ℕ)
parse_header hdr =
    let len = u32_from_be (get_or hdr 5 0) (get_or hdr 6 0) (get_or hdr 7 0) (get_or hdr 8 0) in
    if bytes_eq (take 4 hdr) ctl_magic
    then (if ltb ctl_max_body len
        then err (root (Msg.control_body_exceeds_max ctl_max_body))
        else ok (get_or hdr 4 0, len))
    else err (root Msg.bad_control_magic)

unfoldable pub mismatch_kind : ℕ → Mismatch
mismatch_kind v =
    if ltb v min_supported_version
    then Mismatch.unsupported
    else if ltb ctl_version v
    then Mismatch.newer
    else Mismatch.older

unfoldable pub check_version : ℕ → Result (Unit {0})
check_version v =
    if v == ctl_version
    then ok tt
    else err (coded exit_usage (root (Msg.protocol_mismatch (mismatch_kind v) v ctl_version)))

unfoldable pub validate_ctl_response : CtlResponse → Result CtlResponse
validate_ctl_response (CtlResponse.peers_are ps) =
    if ltb ctl_max_peers (length ps)
    then err (root (Msg.control_too_many_peers (length ps) ctl_max_peers))
    else ok (CtlResponse.peers_are ps)
validate_ctl_response resp = ok resp

-- `ProtocolMismatch::from_error`: the first cause in the chain that is the marker, or that is a
-- `CodedError` with the marker in the chain of what it wraps.
abbrev pub Marker : Type 0
Marker = Mismatch × ℕ × ℕ

marker_of : Error → Option Marker
marker_of (root (Msg.protocol_mismatch k v w)) = some (k, v, w)
marker_of _ = none

first_marker : List Error → Option Marker
unfolding marker_of
first_marker [] = none
first_marker (e ∷ es) =
    let rest = first_marker es in elim (marker_of e) [ some p ↦ some p | none ↦ rest ]

inner_marker : Error → Option Marker
unfolding first_marker
inner_marker (coded c e) = first_marker (Outcome.chain e)
inner_marker _ = none

marker_or_inner : Error → Option Marker
unfolding marker_of inner_marker
marker_or_inner e = elim (marker_of e) [ some p ↦ some p | none ↦ inner_marker e ]

first_from : List Error → Option Marker
unfolding marker_or_inner
first_from [] = none
first_from (e ∷ es) =
    let rest = first_from es in elim (marker_or_inner e) [ some p ↦ some p | none ↦ rest ]

unfoldable pub from_error : Error → Option Marker
unfolding first_from
from_error e = first_from (Outcome.chain e)

-- `serde_json::…(…).context(m)?`
abbrev json {ℓ} : {A : Type ℓ} → Msg → Option A → Result A
json m o = with_context m (or_err (root Msg.json_error) o)

-- `frame.get(9..9 + len).context(…)?`
abbrev body_of : Bytes → ℕ → Result Bytes
body_of frame len =
    if ltb (length frame) (9 + len)
    then err (root Msg.control_frame_truncated)
    else ok (take len (drop 9 frame))

unfoldable pub encode_request : Json CtlRequest → CtlRequest → Result Bytes
encode_request j req =
    Outcome.◌>>=◌ (json Msg.encode_control_request (j.to_vec req)) (encode_frame ctl_version)

unfoldable pub encode_response : Json CtlResponse → CtlResponse → Result Bytes
encode_response j resp =
    Outcome.◌>>=◌ (json Msg.encode_control_response (j.to_vec resp)) (encode_frame ctl_version)

decode_body : Bytes → Result Bytes
decode_body frame =
    if ltb (length frame) 9
    then err (root Msg.control_frame_truncated)
    else Outcome.◌>>=◌ (parse_header (take 9 frame))
        λ p. Outcome.◌>>=◌ (check_version p.0) λ _. body_of frame p.1

unfoldable pub decode_request_frame : Json CtlRequest → Bytes → Result CtlRequest
unfolding decode_body
decode_request_frame j frame =
    Outcome.◌>>=◌ (decode_body frame) λ body. json Msg.decode_control_request (j.from_slice body)

unfoldable pub decode_response_frame : Json CtlResponse → Bytes → Result CtlResponse
unfolding decode_body
decode_response_frame j frame = Outcome.◌>>=◌ (decode_body frame) λ body.
    Outcome.◌>>=◌ (json Msg.decode_control_response (j.from_slice body)) validate_ctl_response

module _ (r : Reader) where
  read_body : ℕ → Read Bytes
  read_body len =
      if ltb 0 len then (λ s. io_context Msg.read_control_body (r.read_exact len s)) else pure []

  unfoldable pub read_frame : Read (ℕ × Bytes)
  unfolding read_body
  read_frame = do
    hdr ← λ s. io_context Msg.read_control_header (r.read_exact 9 s)
    p ← lift (parse_header hdr)
    body ← read_body p.1
    pure (p.0, body)

  unfoldable pub read_request : Json CtlRequest → Read CtlRequest
  read_request j = do
    p ← read_frame
    lift (check_version p.0)
    lift (json Msg.decode_control_request (j.from_slice p.1))

  unfoldable pub read_response : Json CtlResponse → Read CtlResponse
  read_response j = do
    p ← read_frame
    lift (check_version p.0)
    resp ← lift (json Msg.decode_control_response (j.from_slice p.1))
    lift (validate_ctl_response resp)
