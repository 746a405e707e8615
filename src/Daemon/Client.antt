-- ===== src/Daemon/Client.antt =====
-- src/tun_daemon/mod.rs and src/tun_daemon/ctl_sock/unix.rs: what the command line asks the TUN daemon
-- over the control socket, and what it does with the files that a dead daemon leaves. A socket is what
-- connecting to it gives: an error, or the answer to the bytes that are sent, `none` when it is late.
pub mod Served
use link_p2p.Prelude.{
  ℕ, ◌≡◌, Bool, true, false, ◌&&◌, not, Option, none, some, List, [], ◌∷◌, bytes_eq, if◌then◌else◌,
}
use link_p2p.Net.{Bytes}
use link_p2p.Outcome.{
  Msg, Error, Result, ok, err, root, coded, ◌>>=◌, ◌>>◌, exit_timeout, exit_daemon_not_running,
}
use link_p2p.Wire.{Reader}
use link_p2p.TunCtl.{Json, CtlRequest, CtlResponse, encode_request, read_response, from_error}

pub data RuntimeMode : Type 0 where
  ad_hoc system : RuntimeMode

abbrev pub Socket : Type 0
Socket = Result (Bytes → Option Bytes)

pub record PidRecord : Type 0 where
  pub pid : ℕ
  pub session : Bytes
  pub started_unix_ms : ℕ

-- The pid file, where there is one that can be read, and whether the socket's file exists.
pub record Files : Type 0 where
  pub pid_file : Option PidRecord
  pub sock_exists : Bool

pub data Liveness : Type 0 where
  stopped : Liveness
  running : CtlResponse → Option PidRecord → Liveness

unfoldable pub not_running : RuntimeMode → Error
not_running ad_hoc = coded exit_daemon_not_running (root Msg.daemon_not_running)
not_running system = coded exit_daemon_not_running (root Msg.system_not_running)

abbrev pub expect_ok : CtlResponse → Result (Unit {0})
expect_ok CtlResponse.done = ok tt
expect_ok (CtlResponse.error code message) = err (coded code (root message))
expect_ok _ = err (root Msg.unexpected_response)

-- Every error of the connection becomes `not_running`.
abbrev pub connected_or : Error → Socket → Socket
connected_or e (ok stream) = ok stream
connected_or e (err _) = err e

unfoldable pub is_protocol_error : Error → Bool
is_protocol_error e = elim (from_error e) [ some marker ↦ true | none ↦ false ]

abbrev pub without_dead : (ℕ → Bool) → Option PidRecord → Option PidRecord
without_dead process_exists none = none
without_dead process_exists (some rec) = if process_exists rec.pid then some rec else none

-- On Unix the socket's file goes too.
abbrev pub probed : (ℕ → Bool) → Files → Result CtlResponse → Result Liveness × Files
unfolding is_protocol_error
probed process_exists files (ok (CtlResponse.status_is report)) =
    (ok (running (CtlResponse.status_is report) files.pid_file), files)
probed process_exists files (ok _) = (err (root Msg.unexpected_status), files)
probed process_exists files (err e) = if is_protocol_error e then (err e, files) else (
  ok stopped,
  record { pid_file = without_dead process_exists files.pid_file; sock_exists = false },
)

abbrev pub prepared : Files → Result CtlResponse → Result (Option CtlResponse) × Files
unfolding is_protocol_error
prepared files (ok (CtlResponse.status_is report)) =
    (ok (some (CtlResponse.status_is report)), files)
prepared files (ok _) = (err (root Msg.unexpected_status), files)
prepared files (err e) =
    if is_protocol_error e then (err e, files) else (ok none, record files { sock_exists = false })

module _ (r : Reader) (requests : Json CtlRequest) (responses : Json CtlResponse) where
  -- The response alone: the rest of the stream is not looked at.
  abbrev pub received : Error → Option Bytes → Result CtlResponse
  received late none = err late
  received late (some bytes) = elim (read_response r responses bytes) [
    | ok (resp, rest) ↦ ok resp
    | err e ↦ err e
  ]

  -- `write_request`, and `read_response` under a timeout.
  unfoldable pub ask : Error → CtlRequest → (Bytes → Option Bytes) → Result CtlResponse
  ask late req stream = encode_request requests req >>= λ frame. received late (stream frame)

  unfoldable pub handshake_status : Socket → Result CtlResponse
  unfolding ask
  handshake_status sock = sock >>= ask (root Msg.control_timed_out) CtlRequest.status

  unfoldable pub handshake_peers : Socket → Result CtlResponse
  unfolding ask
  handshake_peers sock = sock >>= ask (root Msg.control_timed_out) CtlRequest.peers

  unfoldable pub send_expect_ok : RuntimeMode → CtlRequest → Socket → Result (Unit {0})
  unfolding ask
  send_expect_ok mode req sock =
      connected_or (not_running mode) sock
      >>= ask (coded exit_timeout (root Msg.request_timed_out)) req
      >>= expect_ok

  unfoldable pub send_shutdown : RuntimeMode → Socket → Result (Unit {0})
  unfolding send_expect_ok
  send_shutdown mode sock = send_expect_ok mode CtlRequest.shutdown sock

  unfoldable pub probe : (ℕ → Bool) → Socket → Files → Result Liveness × Files
  unfolding handshake_status
  probe process_exists sock files = probed process_exists files (handshake_status sock)

  unfoldable pub prepare_bind : Socket → Files → Result (Option CtlResponse) × Files
  unfolding handshake_status
  prepare_bind sock files =
      if not files.sock_exists then (ok none, files) else prepared files (handshake_status sock)
