-- ===== src/Tests/Downs.antt =====
-- A daemon that is asked to stop and is gone at the second probe.
use link_p2p.Prelude.{◌≡◌, refl, true, false, Option, none, some, [], ◌∷◌, arith}
use link_p2p.Net.{Bytes}
use link_p2p.Outcome.{Msg, ok, err, root}
use link_p2p.Wire.Slice.{slice_reader}
use link_p2p.TunCtl.{Json, StatusReport, CtlRequest, CtlResponse}
use link_p2p.TunCtl.{
  from_error, encode_request, encode_frame, read_frame, parse_header, check_version,
  validate_ctl_response, read_response,
}
use link_p2p.Outcome.{chain}
use link_p2p.Daemon.Client.{is_protocol_error}
use link_p2p.Tests.Stubs.{mesh4, mesh6}
use link_p2p.Daemon.Client.{ad_hoc, Socket, Files}
use link_p2p.Daemon.Down.{stopped_said, cmd_down}

abbrev report : StatusReport
report = record {
  role = [];
  uptime_secs = 0;
  vip = mesh4 1;
  vip6 = mesh6 1;
  path_kind = [];
  session = [];
  pending_calls = [];
}

abbrev write_request : CtlRequest → Option Bytes
write_request CtlRequest.status = some []
write_request CtlRequest.shutdown = some (1 ∷ [])
write_request _ = none

abbrev read_request : Bytes → Option CtlRequest
read_request [] = some CtlRequest.status
read_request (_ ∷ _) = some CtlRequest.shutdown

request_back : (a : CtlRequest) (b : Bytes) → write_request a ≡ some b → read_request b ≡ some a
request_back CtlRequest.status [] h = refl
request_back CtlRequest.status (x ∷ b) h = absurd (ground (arith, h))
request_back CtlRequest.shutdown [] h = absurd (ground (arith, h))
request_back CtlRequest.shutdown (x ∷ b) h = refl
request_back (CtlRequest.call to) b h = absurd (ground (arith, h))
request_back CtlRequest.peers b h = absurd (ground (arith, h))
request_back (CtlRequest.accept to) b h = absurd (ground (arith, h))
request_back (CtlRequest.reject to) b h = absurd (ground (arith, h))

abbrev requests : Json CtlRequest
requests = record { to_vec = write_request; from_slice = read_request; reads_back = request_back }

-- What a daemon writes is one of two fixed answers.
abbrev answer_of : Bytes → Option CtlResponse
answer_of [] = some (CtlResponse.status_is report)
answer_of (_ ∷ _) = some CtlResponse.done

abbrev write_response : CtlResponse → Option Bytes
write_response CtlResponse.done = some (1 ∷ [])
write_response _ = none

response_back : (a : CtlResponse) (b : Bytes) → write_response a ≡ some b → answer_of b ≡ some a
response_back CtlResponse.done [] h = absurd (ground (arith, h))
response_back CtlResponse.done (x ∷ b) h = refl
response_back (CtlResponse.status_is r) b h = absurd (ground (arith, h))
response_back (CtlResponse.peers_are ps) b h = absurd (ground (arith, h))
response_back (CtlResponse.error c m) b h = absurd (ground (arith, h))

abbrev responses : Json CtlResponse
responses = record { to_vec = write_response; from_slice = answer_of; reads_back = response_back }

abbrev alive : Socket
alive = ok (λ frame. some (b'L' ∷ b'P' ∷ b'C' ∷ b'1' ∷ 2 ∷ 0 ∷ 0 ∷ 0 ∷ 0 ∷ []))

abbrev obeying : Socket
obeying = ok (λ frame. some (b'L' ∷ b'P' ∷ b'C' ∷ b'1' ∷ 2 ∷ 0 ∷ 0 ∷ 0 ∷ 1 ∷ 1 ∷ []))

abbrev refusing : Socket
refusing = err (root Msg.io_error)

abbrev files : Files
files = record {
  pid_file = some (record { pid = 42; session = []; started_unix_ms = 0 });
  sock_exists = true;
}

abbrev gone : Files
gone = record { pid_file = none; sock_exists = false }

down_said :
    cmd_down slice_reader requests responses
      (λ p. true)
      ad_hoc
      alive
      obeying
      (alive ∷ refusing ∷ [])
      files
    ≡ (ok stopped_said, gone)
unfolding cmd_down slice_reader is_protocol_error from_error chain encode_request encode_frame
    read_response read_frame parse_header check_version validate_ctl_response
down_said = refl
