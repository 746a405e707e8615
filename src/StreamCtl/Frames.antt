-- ===== src/StreamCtl/Frames.antt =====
-- Frames of src/stream_ctl.rs: round trips, other versions, and the wall between the two control
-- protocols.
use mathlib.Core.List.{append_assoc}
use link_p2p.Prelude.{ℕ, ◌≤◌, ◌≡◌, refl, [], ◌∷◌, ◌++◌, length, arith, inl, inr, Option-cases}
use link_p2p.Net.{Bytes}
use link_p2p.Outcome.{ok, err, root, bad_control_magic}
use link_p2p.Wire.{Reader, be32, u32-be32}
use link_p2p.TunCtl
use link_p2p.TunCtl.{Json}
use link_p2p.TunCtl.Frames as TunFrames
use link_p2p.StreamCtl.{
  CtlRequest, CtlResponse, ctl_magic, ctl_max_body, ctl_version, encode_frame, parse_header,
  check_version, write_request, write_response, read_body, read_frame, read_request, read_response,
}

abbrev header : ℕ → ℕ → Bytes
header v len = ctl_magic ++ v ∷ be32 len

encode_frame-eq_ok :
    (v : ℕ) (body f : Bytes)
    → encode_frame v body ≡ ok f
    → (length body ≤ ctl_max_body) × (f ≡ header v (length body) ++ body)
unfolding encode_frame
encode_frame-eq_ok v body f h = ground arith

parse_header-header : (v len : ℕ) → len ≤ ctl_max_body → parse_header (header v len) ≡ ok (v, len)
unfolding parse_header
parse_header-header v len h = ground (arith, u32-be32 len)

module _ (r : Reader) where
  read_body-append :
      (body rest : Bytes) → read_body r (length body) (body ++ rest) ≡ ok (body, rest)
  unfolding read_body
  read_body-append [] rest = refl
  read_body-append (b ∷ body) rest = ground (arith, r.fills (b ∷ body) rest)

  read_frame-header :
      (v : ℕ) (body rest : Bytes)
      → length body ≤ ctl_max_body
      → read_frame r (header v (length body) ++ (body ++ rest)) ≡ ok ((v, body), rest)
  unfolding read_frame
  read_frame-header v body rest h = ground (
    arith,
    r.fills (header v (length body)) (body ++ rest),
    parse_header-header v (length body),
    read_body-append body rest,
  )

  read_frame-encode_frame :
      (v : ℕ) (body f rest : Bytes)
      → encode_frame v body ≡ ok f
      → read_frame r (f ++ rest) ≡ ok ((v, body), rest)
  read_frame-encode_frame v body f rest h =
      let (fits, e) = encode_frame-eq_ok v body f h in
      rw (e, append_assoc (header v (length body)) body rest) (read_frame-header v body rest fits)

  -- A request that was written without an error is the request that the stream daemon reads, and the
  -- stream is left at the byte behind it.
  pub read_request-write_request :
      (j : Json CtlRequest) (req : CtlRequest) (f rest : Bytes)
      → write_request j req ≡ ok f
      → read_request r j (f ++ rest) ≡ ok (req, rest)
  unfolding write_request read_request check_version
  read_request-write_request j req f rest h = elim (Option-cases (j.to_vec req)) [
    | inl failed ↦ ground arith
    | inr (body, e) ↦
        ground (arith, j.reads_back req body e, read_frame-encode_frame ctl_version body f rest)
  ]

  -- A response that the stream daemon wrote is the response that the CLI reads.
  pub read_response-write_response :
      (j : Json CtlResponse) (resp : CtlResponse) (f rest : Bytes)
      → write_response j resp ≡ ok f
      → read_response r j (f ++ rest) ≡ ok (resp, rest)
  unfolding write_response read_response check_version
  read_response-write_response j resp f rest h = elim (Option-cases (j.to_vec resp)) [
    | inl failed ↦ ground arith
    | inr (body, e) ↦
        ground (arith, j.reads_back resp body e, read_frame-encode_frame ctl_version body f rest)
  ]

  foreign_header :
      (v len : ℕ) (rest : Bytes)
      → TunCtl.read_frame r (header v len ++ rest) ≡ err (root bad_control_magic)
  unfolding TunCtl.read_frame TunCtl.parse_header
  foreign_header v len rest = ground (arith, r.fills (header v len) rest)

  foreign_tun_header :
      (v len : ℕ) (rest : Bytes)
      → read_frame r (TunFrames.header v len ++ rest) ≡ err (root bad_control_magic)
  unfolding read_frame parse_header
  foreign_tun_header v len rest = ground (arith, r.fills (TunFrames.header v len) rest)

  -- The two control protocols never read each other's frames: a frame of either one, of any version
  -- and body, is refused by the other's reader for its magic.
  pub frames_never_cross :
      (v : ℕ) (body f g rest : Bytes)
      → encode_frame v body ≡ ok f
      → TunCtl.encode_frame v body ≡ ok g
      → (TunCtl.read_frame r (f ++ rest) ≡ err (root bad_control_magic))
        × (read_frame r (g ++ rest) ≡ err (root bad_control_magic))
  frames_never_cross v body f g rest hf hg =
      let (fits, e) = encode_frame-eq_ok v body f hf in
      let (fits', e') = TunFrames.encode_frame-eq_ok v body g hg in
      (
        rw (e, append_assoc (header v (length body)) body rest)
            (foreign_header v (length body) (body ++ rest)),
        rw (e', append_assoc (TunFrames.header v (length body)) body rest)
            (foreign_tun_header v (length body) (body ++ rest)),
      )
