-- ===== src/StreamCtl.antt =====
-- src/stream_ctl.rs: the control protocol of the stream phone daemon. Its frames differ from those
-- of src/tun_ctl.rs by the magic `SPC1` and the version.
pub mod Frames
use link_p2p.Prelude.{
  ℕ, ◌+◌, Option, none, some, List, [], ◌∷◌, ◌++◌, ltb, ◌==◌, length, get_or, take, bytes_eq,
  if◌then◌else◌,
}
use link_p2p.Net.{Bytes, SocketAddr}
use link_p2p.Outcome.{Msg, Error, Result, ok, err, root, coded, with_context, or_err, exit_usage}
use link_p2p.Outcome
use link_p2p.Wire.{Reader, Read, ◌>>=◌, ◌>>◌, pure, lift, io_context, be32, u32_from_be}
use link_p2p.TunCtl.{Json}

-- "SPC1"
abbrev pub ctl_magic : Bytes
ctl_magic = b'S' ∷ b'P' ∷ b'C' ∷ b'1' ∷ []

abbrev pub ctl_version : ℕ
ctl_version = 1

abbrev pub ctl_max_body : ℕ
ctl_max_body = 1048576

pub record PendingCall : Type 0 where
  pub peer : Bytes
  pub since_unix_ms : ℕ
  pub direction : Bytes

pub record CallRequest : Type 0 where
  pub to : Bytes
  pub listen : Option SocketAddr
  pub forward : Option SocketAddr
  pub to_addr : List SocketAddr

pub data CtlRequest : Type 0 where
  status peers shutdown : CtlRequest
  call : CallRequest → CtlRequest
  accept reject : Bytes → CtlRequest

pub record StatusReport : Type 0 where
  pub role : Bytes
  pub uptime_secs : ℕ
  pub session : Bytes
  pub phase : Bytes
  pub listen : Option SocketAddr
  pub forward : Option SocketAddr
  pub pending_calls : List PendingCall

pub data CtlResponse : Type 0 where
  status_is : StatusReport → CtlResponse
  peers_are : List Bytes → CtlResponse
  done : CtlResponse
  error : ℕ → Bytes → CtlResponse

unfoldable pub encode_frame : ℕ → Bytes → Result Bytes
encode_frame version body =
    if ltb 4294967295 (length body)
    then err (root Msg.control_body_too_large)
    else if ltb ctl_max_body (length body)
    then err (root (Msg.control_body_exceeds_max ctl_max_body))
    else ok (ctl_magic ++ version ∷ be32 (length body) ++ body)

unfoldable pub parse_header : Bytes → Result (ℕ × ℕ)
parse_header hdr =
    let len = u32_from_be (get_or hdr 5 0) (get_or hdr 6 0) (get_or hdr 7 0) (get_or hdr 8 0) in
    if bytes_eq (take 4 hdr) ctl_magic
    then (if ltb ctl_max_body len
        then err (root (Msg.control_body_exceeds_max ctl_max_body))
        else ok (get_or hdr 4 0, len))
    else err (root Msg.bad_control_magic)

unfoldable pub check_version : ℕ → Result (Unit {0})
check_version v =
    if v == ctl_version
    then ok tt
    else err (coded exit_usage (root (Msg.stream_protocol_mismatch v ctl_version)))

abbrev json {ℓ} : {A : Type ℓ} → Msg → Option A → Result A
json m o = with_context m (or_err (root Msg.json_error) o)

-- The bytes that `write_request` and `write_response` hand to the writer.
unfoldable pub write_request : Json CtlRequest → CtlRequest → Result Bytes
write_request j req =
    Outcome.◌>>=◌ (json Msg.encode_control_request (j.to_vec req)) (encode_frame ctl_version)

unfoldable pub write_response : Json CtlResponse → CtlResponse → Result Bytes
write_response j resp =
    Outcome.◌>>=◌ (json Msg.encode_control_response (j.to_vec resp)) (encode_frame ctl_version)

module _ (r : Reader) where
  read_body : ℕ → Read Bytes
  read_body len =
      if ltb 0 len then (λ s. io_context Msg.read_control_body (r.read_exact len s)) else pure []

  unfoldable pub read_frame : Read (ℕ × Bytes)
  unfolding read_body
  read_frame = do
    hdr ← λ s. io_context Msg.read_control_header (r.read_exact 9 s)
    p ← lift (parse_header hdr)
    body ← read_body p.1
    pure (p.0, body)

  unfoldable pub read_request : Json CtlRequest → Read CtlRequest
  read_request j = do
    p ← read_frame
    lift (check_version p.0)
    lift (json Msg.decode_control_request (j.from_slice p.1))

  unfoldable pub read_response : Json CtlResponse → Read CtlResponse
  read_response j = do
    p ← read_frame
    lift (check_version p.0)
    lift (json Msg.decode_control_response (j.from_slice p.1))
