-- ===== src/TunCtl/Slices.antt =====
-- Requests and responses of src/tun_ctl.rs: the stream readers and the decoders of a buffered frame.
use link_p2p.Prelude.{
  ℕ, ◌≡◌, ◌↔◌, ◌++◌, length, length-drop, take, drop, arith, Option-cases, Bool-cases, inl, inr,
  ltb, get_or, bytes_eq, ◌⊎◌, zero, suc, if◌then◌else◌,
}
use link_p2p.Net.{Bytes}
use link_p2p.Outcome.{
  Error, ok, err, root, context, io_error, read_control_body, control_body_exceeds_max,
  bad_control_magic,
}
use link_p2p.Wire.{Reader, lift, read_exact-take, u32_from_be}
use link_p2p.TunCtl.{
  Json, CtlRequest, CtlResponse, ctl_version, ctl_magic, ctl_max_body, encode_request,
  encode_response, parse_header, check_version, validate_ctl_response, decode_request_frame,
  read_body, read_frame, read_request, read_response,
}
use link_p2p.TunCtl.Frames.{read_frame-encode_frame}

-- The length that the header of a frame claims.
abbrev claimed : Bytes → ℕ
claimed frame =
    let hdr = take 9 frame in
    u32_from_be (get_or hdr 5 0) (get_or hdr 6 0) (get_or hdr 7 0) (get_or hdr 8 0)

parse_header-claimed :
    (frame : Bytes)
    → (parse_header (take 9 frame) ≡ ok (get_or (take 9 frame) 4 0, claimed frame))
      ⊎ ((e : Error) × (parse_header (take 9 frame) ≡ err e))
unfolding parse_header
parse_header-claimed frame = elim (Bool-cases (bytes_eq (take 4 (take 9 frame)) ctl_magic)) [
  | inl good ↦ elim (Bool-cases (ltb ctl_max_body (claimed frame))) [
    | inl big ↦ inr (root (control_body_exceeds_max ctl_max_body), rw (good, big))
    | inr fits ↦ inl (rw (good, fits))
  ]
  | inr bad ↦ inr (root bad_control_magic, rw bad)
]

module _ (r : Reader) where
  -- A request that was encoded and sent is the request that the daemon reads, and the stream is left
  -- at the byte behind it.
  pub read_request-encode_request :
      (j : Json CtlRequest) (req : CtlRequest) (f rest : Bytes)
      → encode_request j req ≡ ok f
      → read_request r j (f ++ rest) ≡ ok (req, rest)
  unfolding encode_request read_request check_version
  read_request-encode_request j req f rest h = elim (Option-cases (j.to_vec req)) [
    | inl none_e ↦ ground (arith)
    | inr (body, e) ↦
        ground (arith, j.reads_back req body e, read_frame-encode_frame r ctl_version body f rest)
  ]

  -- A response that was encoded and sent is checked against the cap on peers and then returned: the
  -- client reads `validate_ctl_response resp`, whichever response it is.
  pub read_response-encode_response :
      (j : Json CtlResponse) (resp : CtlResponse) (f rest : Bytes)
      → encode_response j resp ≡ ok f
      → read_response r j (f ++ rest) ≡ lift (validate_ctl_response resp) rest
  unfolding encode_response read_response check_version
  read_response-encode_response j resp f rest h = elim (Option-cases (j.to_vec resp)) [
    | inl none_e ↦ ground (arith)
    | inr (body, e) ↦
        ground (arith, j.reads_back resp body e, read_frame-encode_frame r ctl_version body f rest)
  ]

  read_body_lem :
      (len : ℕ) (s : Bytes)
      → read_body r len s ≡ (
          if ltb (length s) len
          then err (context read_control_body (root io_error))
          else ok (take len s, drop len s))
  unfolding read_body
  read_body_lem zero s = ground arith
  read_body_lem (suc len) s = ground (arith, r.short (suc len) s, read_exact-take r (suc len) s)

  -- The decoder of a buffered frame and the stream reader accept the same inputs, with the same
  -- request.
  pub decode_request_frame-read_request :
      (j : Json CtlRequest) (frame : Bytes) (req : CtlRequest)
      → (decode_request_frame j frame ≡ ok req)
        ↔ ((rest : Bytes) × (read_request r j frame ≡ ok (req, rest)))
  unfolding decode_request_frame read_request read_frame
  decode_request_frame-read_request j frame req = (
    λ h. (
      drop (claimed frame) (drop 9 frame),
      ground (
        arith,
        r.short 9 frame,
        read_exact-take r 9 frame,
        parse_header-claimed frame,
        read_body_lem (claimed frame) (drop 9 frame),
        length-drop 9 frame,
      ),
    ),
    λ (rest, h). ground (
      arith,
      r.short 9 frame,
      read_exact-take r 9 frame,
      parse_header-claimed frame,
      read_body_lem (claimed frame) (drop 9 frame),
      length-drop 9 frame,
    ),
  )
