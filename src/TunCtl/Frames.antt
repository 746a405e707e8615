-- ===== src/TunCtl/Frames.antt =====
-- Frames of src/tun_ctl.rs on the wire: what the writer encodes the reader gets back, and what the
-- reader refuses.
use link_p2p.Prelude.{
  ℕ, ◌≤◌, ◌<◌, ◌≡◌, refl, true, [], ◌∷◌, ◌++◌, ltb, length, length-append, take, bytes_eq, arith,
  Bool-cases, inl, inr, ltb→lt, take-append_add, length-take, ◌-◌,
}
use mathlib.Core.List.{append_assoc}
use link_p2p.Net.{Bytes}
use link_p2p.Outcome.{
  Error, ok, err, io_error, read_control_header, read_control_body, root, context,
}
use link_p2p.Wire.{Reader, be32, u32-be32}
use link_p2p.TunCtl.{ctl_magic, ctl_max_body, encode_frame, parse_header, read_body, read_frame}

abbrev pub header : ℕ → ℕ → Bytes
header v len = ctl_magic ++ v ∷ be32 len

pub encode_frame-eq_ok :
    (v : ℕ) (body f : Bytes)
    → encode_frame v body ≡ ok f
    → (length body ≤ ctl_max_body) × (f ≡ header v (length body) ++ body)
unfolding encode_frame
encode_frame-eq_ok v body f h = ground arith

-- A header with the magic is parsed to its version and length, up to the cap.
pub parse_header-header :
    (v len : ℕ) → len ≤ ctl_max_body → parse_header (header v len) ≡ ok (v, len)
unfolding parse_header
parse_header-header v len h = ground (arith, u32-be32 len)

-- Whatever the nine bytes are, a header that is accepted claims at most 1 MiB.
pub parse_header-le :
    (hdr : Bytes) (v len : ℕ)
    → parse_header hdr ≡ ok (v, len)
    → (bytes_eq (take 4 hdr) ctl_magic ≡ true) × (len ≤ ctl_max_body)
unfolding parse_header
parse_header-le hdr v len h = ground arith

module _ (r : Reader) where
  read_body-append :
      (body rest : Bytes) → read_body r (length body) (body ++ rest) ≡ ok (body, rest)
  unfolding read_body
  read_body-append [] rest = refl
  read_body-append (b ∷ body) rest = ground (arith, r.fills (b ∷ body) rest)

  read_frame-header :
      (v : ℕ) (body rest : Bytes)
      → length body ≤ ctl_max_body
      → read_frame r (header v (length body) ++ (body ++ rest)) ≡ ok ((v, body), rest)
  unfolding read_frame
  read_frame-header v body rest h = ground (
    arith,
    r.fills (header v (length body)) (body ++ rest),
    parse_header-header v (length body),
    read_body-append body rest,
  )

  -- What `encode_frame` wrote, `read_frame` gives back, and it leaves whatever follows.
  pub read_frame-encode_frame :
      (v : ℕ) (body f rest : Bytes)
      → encode_frame v body ≡ ok f
      → read_frame r (f ++ rest) ≡ ok ((v, body), rest)
  read_frame-encode_frame v body f rest h =
      let (fits, e) = encode_frame-eq_ok v body f h in
      rw (e, append_assoc (header v (length body)) body rest) (read_frame-header v body rest fits)

  read_frame_early :
      (s : Bytes)
      → length s < 9
      → read_frame r s ≡ err (context read_control_header (root io_error))
  unfolding read_frame
  read_frame_early s h = ground (arith, r.short 9 s)

  read_frame_late :
      (v len : ℕ) (cut : Bytes)
      → len ≤ ctl_max_body
      → length cut < len
      → read_frame r (header v len ++ cut) ≡ err (context read_control_body (root io_error))
  unfolding read_frame read_body
  read_frame_late v len cut h lt =
      ground (arith, r.fills (header v len) cut, parse_header-header v len, r.short len cut)

  -- Every proper prefix of a frame is refused: a frame that was cut on the way is never taken for
  -- a whole one.
  pub read_frame-take :
      (v : ℕ) (body f : Bytes) (n : ℕ)
      → encode_frame v body ≡ ok f
      → n < length f
      → (e : Error) × (read_frame r (take n f) ≡ err e)
  read_frame-take v body f n h lt = elim (Bool-cases (ltb n 9)) [
    | inl early ↦ (
      context read_control_header (root io_error),
      read_frame_early (take n f) (omega (arith, length-take n f, ltb→lt n 9 early)),
    )
    | inr late ↦ (
      context read_control_body (root io_error),
      let (fits, e) = encode_frame-eq_ok v body f h in
          let cut : take n f ≡ header v (length body) ++ take (n - 9) body =
            ground (arith, take-append_add (header v (length body)) body (n - 9)) in
          rw cut (
            read_frame_late v (length body) (take (n - 9) body) fits (
              ground
                (arith, length-take (n - 9) body, length-append (header v (length body)) body))),
    )
  ]
