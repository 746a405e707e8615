-- ===== src/Daemon/Down.antt =====
-- src/tun_daemon/mod.rs and src/stream_daemon_unix.rs: the commands that stop a daemon. `rounds` are the
-- sockets that the probes of the wait find, one for each probe until the deadline.
pub mod Stopped
use link_p2p.Prelude.{
  ℕ, Bool, true, false, ◌==◌, Option, none, some, List, [], ◌∷◌, ◌≡◌, if◌then◌else◌,
}
use link_p2p.Outcome.{Error, Result, ok, err, code_from, exit_daemon_not_running}
use link_p2p.Wire.{Reader}
use link_p2p.TunCtl.{Json, CtlRequest, CtlResponse}
use link_p2p.Daemon.Client.{
  RuntimeMode, Socket, PidRecord, Files, Liveness, stopped, running, not_running, probe,
  send_shutdown,
}

-- The line that the command prints.
pub data Said : Type 0 where
  not_running_said stopped_said may_be_running_said : Said

-- One probe of the wait: the daemon is gone, or the wait goes on, or the probe's error ends it.
abbrev pub gone_or : (Files → Result Bool × Files) → Result Liveness × Files → Result Bool × Files
gone_or wait (ok stopped, files) = (ok true, files)
gone_or wait (ok (running status rec), files) = wait files
gone_or wait (err e, files) = (err e, files)

-- `remove_file` of the pid file.
abbrev pub without_pid : Files → Files
without_pid files = record files { pid_file = none }

abbrev pub waited : Result Bool × Files → Result Said × Files
waited (ok true, files) = (ok stopped_said, without_pid files)
waited (ok false, files) = (ok may_be_running_said, files)
waited (err e, files) = (err e, files)

-- The process that is killed when the wait is over, if the pid file names one, and what is left.
pub record Forced : Type 0 where
  pub result : Result (Unit {0})
  pub killed : Option ℕ
  pub left : Files

abbrev pub pid_of : Option PidRecord → Option ℕ
pid_of none = none
pid_of (some rec) = some rec.pid

abbrev pub forced : Result Bool × Files → Forced
forced (ok true, files) = record { result = ok tt; killed = none; left = without_pid files }
forced (ok false, files) = record {
  result = ok tt;
  killed = pid_of files.pid_file;
  left = record { pid_file = none; sock_exists = false };
}
forced (err e, files) = record { result = err e; killed = none; left = files }

module _ (r : Reader) (requests : Json CtlRequest) (responses : Json CtlResponse)
    (process_exists : ℕ → Bool) where
  unfoldable pub wait_gone : List Socket → Files → Result Bool × Files
  wait_gone [] files = (ok false, files)
  wait_gone (sock ∷ rounds) files =
      gone_or (wait_gone rounds) (probe r requests responses process_exists sock files)

  unfoldable pub shut_down : List Socket → Files → Result (Unit {0}) → Result Said × Files
  unfolding wait_gone code_from
  shut_down rounds files (ok _) = waited (wait_gone rounds files)
  shut_down rounds files (err e) =
      if code_from e == exit_daemon_not_running
      then (ok not_running_said, files)
      else (err e, files)

  unfoldable pub found :
      RuntimeMode → Socket → List Socket → Result Liveness × Files → Result Said × Files
  unfolding shut_down send_shutdown
  found mode sock rounds (ok stopped, files) = (ok not_running_said, files)
  found mode sock rounds (ok (running status rec), files) =
      shut_down rounds files (send_shutdown r requests responses mode sock)
  found mode sock rounds (err e, files) = (err e, files)

  -- `first` is the socket that the first probe finds, `sock` the one that takes the request.
  unfoldable pub cmd_down :
      RuntimeMode → Socket → Socket → List Socket → Files → Result Said × Files
  unfolding found probe
  cmd_down mode first sock rounds files =
      found mode sock rounds (probe r requests responses process_exists first files)

  unfoldable pub asked : List Socket → Files → Result (Unit {0}) → Forced
  unfolding wait_gone
  asked rounds files (ok _) = forced (wait_gone rounds files)
  asked rounds files (err e) = record { result = err e; killed = none; left = files }

  unfoldable pub requested : RuntimeMode → Socket → List Socket → Result Liveness × Files → Forced
  unfolding asked send_shutdown not_running
  requested mode sock rounds (ok stopped, files) = record {
    result = err (not_running mode);
    killed = none;
    left = files;
  }
  requested mode sock rounds (ok (running status rec), files) =
      asked rounds files (send_shutdown r requests responses mode sock)
  requested mode sock rounds (err e, files) = record { result = err e; killed = none; left = files }

  unfoldable pub request_shutdown_mode :
      RuntimeMode → Socket → Socket → List Socket → Files → Forced
  unfolding requested probe
  request_shutdown_mode mode first sock rounds files =
      requested mode sock rounds (probe r requests responses process_exists first files)

-- The stream daemon: a probe tells whether it is running, and the line after the wait is the same
-- however the wait ends.
unfoldable pub wait_stream : List (Result Bool) → Result (Unit {0})
wait_stream [] = ok tt
wait_stream (ok true ∷ rounds) = wait_stream rounds
wait_stream (ok false ∷ rounds) = ok tt
wait_stream (err e ∷ rounds) = err e

abbrev pub stream_said : Result (Unit {0}) → Result Said
stream_said (ok _) = ok stopped_said
stream_said (err e) = err e

unfoldable pub stream_asked : List (Result Bool) → Result (Unit {0}) → Result Said
unfolding wait_stream
stream_asked rounds (ok _) = stream_said (wait_stream rounds)
stream_asked rounds (err e) = err e

unfoldable pub stream_cmd_down : Result Bool → Result (Unit {0}) → List (Result Bool) → Result Said
unfolding stream_asked
stream_cmd_down (err e) sent rounds = err e
stream_cmd_down (ok false) sent rounds = ok not_running_said
stream_cmd_down (ok true) sent rounds = stream_asked rounds sent
