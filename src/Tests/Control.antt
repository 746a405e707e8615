-- ===== src/Tests/Control.antt =====
-- The control protocols at concrete frames.
use link_p2p.Prelude.{
  ◌≡◌, ◌≢◌, ◌<◌, ◌↔◌, refl, some, [], ◌∷◌, ◌++◌, length, ltb, take, arith, if◌then◌else◌,
}
use link_p2p.Net.{Bytes}
use link_p2p.Outcome.{Msg, Mismatch, Error, ok, err, exit_usage, code_from}
use link_p2p.Outcome.Codes.{wrap}
use link_p2p.Wire.{lift}
use link_p2p.Wire.Slice.{slice_reader}
use link_p2p.TunCtl.{
  CtlRequest, CtlResponse, ctl_version, mismatch_kind, from_error, validate_ctl_response,
  encode_frame, encode_request, encode_response, decode_request_frame, read_request, read_response,
  read_frame,
}
use link_p2p.TunCtl.Frames.{read_frame-take}
use link_p2p.TunCtl.Slices.{
  read_request-encode_request, read_response-encode_response, decode_request_frame-read_request,
}
use link_p2p.TunCtl.Versions.{read_request-other_version}
use link_p2p.Tests.Stubs.{tun_requests, tun_responses}

abbrev callee : Bytes
callee = b'b' ∷ b'o' ∷ b'b' ∷ []

abbrev call_frame : Bytes
call_frame = b'L' ∷ b'P' ∷ b'C' ∷ b'1' ∷ 2 ∷ 0 ∷ 0 ∷ 0 ∷ 4 ∷ 0 ∷ callee

call_encoded : encode_request tun_requests (CtlRequest.call callee) ≡ ok call_frame
unfolding encode_request encode_frame
call_encoded = refl

read_request-encode_request_example :
    read_request slice_reader tun_requests (call_frame ++ 9 ∷ [])
    ≡ ok (CtlRequest.call callee, 9 ∷ [])
read_request-encode_request_example =
    read_request-encode_request slice_reader tun_requests (CtlRequest.call callee) call_frame
      (9 ∷ []) call_encoded

done_encoded :
    encode_response tun_responses CtlResponse.done
    ≡ ok (b'L' ∷ b'P' ∷ b'C' ∷ b'1' ∷ 2 ∷ 0 ∷ 0 ∷ 0 ∷ 2 ∷ 123 ∷ 125 ∷ [])
unfolding encode_response encode_frame
done_encoded = refl

read_response-encode_response_example :
    read_response slice_reader tun_responses
      (b'L' ∷ b'P' ∷ b'C' ∷ b'1' ∷ 2 ∷ 0 ∷ 0 ∷ 0 ∷ 2 ∷ 123 ∷ 125 ∷ [])
    ≡ lift (validate_ctl_response CtlResponse.done) []
read_response-encode_response_example =
    read_response-encode_response slice_reader tun_responses CtlResponse.done
      (b'L' ∷ b'P' ∷ b'C' ∷ b'1' ∷ 2 ∷ 0 ∷ 0 ∷ 0 ∷ 2 ∷ 123 ∷ 125 ∷ []) [] done_encoded

decode_request_frame-read_request_example :
    (decode_request_frame tun_requests call_frame ≡ ok (CtlRequest.call callee)) ↔ (
      (rest : Bytes) × (read_request slice_reader tun_requests call_frame
        ≡ ok (CtlRequest.call callee, rest)))
decode_request_frame-read_request_example =
    decode_request_frame-read_request slice_reader tun_requests call_frame (CtlRequest.call callee)

call_framed : encode_frame 2 (0 ∷ callee) ≡ ok call_frame
unfolding encode_frame
call_framed = refl

cut_short : 11 < length call_frame
cut_short = omega arith

read_frame-take_example : (e : Error) × (read_frame slice_reader (take 11 call_frame) ≡ err e)
read_frame-take_example =
    read_frame-take slice_reader 2 (0 ∷ callee) call_frame 11 call_framed cut_short

abbrev newer_frame : Bytes
newer_frame = b'L' ∷ b'P' ∷ b'C' ∷ b'1' ∷ 3 ∷ 0 ∷ 0 ∷ 0 ∷ 0 ∷ []

newer_framed : encode_frame 3 [] ≡ ok newer_frame
unfolding encode_frame
newer_framed = refl

not_ours : 3 ≢ ctl_version
not_ours h = omega (arith, h)

read_request-other_version_example :
    (e : Error) × (read_request slice_reader tun_requests (newer_frame ++ []) ≡ err e)
    × (code_from (wrap (Msg.read_control_body ∷ []) e) ≡ exit_usage)
    × (from_error (wrap (Msg.read_control_body ∷ []) e) ≡ some (mismatch_kind 3, 3, ctl_version))
    × (mismatch_kind 3 ≡ (if ltb 3 ctl_version then Mismatch.unsupported else Mismatch.newer))
read_request-other_version_example =
    read_request-other_version slice_reader tun_requests 3 [] newer_frame []
      (Msg.read_control_body ∷ []) newer_framed not_ours
