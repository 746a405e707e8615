-- ===== src/Daemon/Down/Stopped.antt =====
-- What the commands that stop a daemon say and leave behind.
use link_p2p.Prelude.{
  ℕ, Bool, true, false, none, List, [], ◌∷◌, ◌≡◌, refl, All, Bool-cases, arith, inl, inr,
}
use link_p2p.Outcome.{Result, ok, err}
use link_p2p.Wire.{Reader}
use link_p2p.TunCtl.{Json, CtlRequest, CtlResponse}
use link_p2p.Daemon.Client.{
  RuntimeMode, Socket, Files, Liveness, stopped, running, probe, probed, handshake_status,
  send_shutdown, is_protocol_error,
}
use link_p2p.Daemon.Down.{
  Said, stopped_said, not_running_said, may_be_running_said, gone_or, Forced, forced, wait_gone,
  asked, requested, request_shutdown_mode, wait_stream, stream_cmd_down,
}

-- When a probe finds no daemon, it has removed the socket's file.
abbrev IsRemoved : Result Liveness × Files → Type 0
IsRemoved (ok stopped, files) = files.sock_exists ≡ false
IsRemoved (ok (running status rec), files) = Unit
IsRemoved (err e, files) = Unit

-- When the wait is over because the daemon is gone, so is the socket's file.
abbrev IsGone : Result Bool × Files → Type 0
IsGone (ok true, files) = files.sock_exists ≡ false
IsGone (ok false, files) = Unit
IsGone (err e, files) = Unit

gone_or-IsGone :
    (wait : Files → Result Bool × Files) (p : Result Liveness × Files)
    → ((files : Files) → IsGone (wait files))
    → IsRemoved p
    → IsGone (gone_or wait p)
gone_or-IsGone wait (ok stopped, files) h k = k
gone_or-IsGone wait (ok (running status rec), files) h k = h files
gone_or-IsGone wait (err e, files) h k = tt

-- Where the command says that the daemon has stopped, neither file is left.
abbrev pub IsStopped : Result Said × Files → Type 0
IsStopped (ok stopped_said, files) = (files.pid_file ≡ none) × (files.sock_exists ≡ false)
IsStopped (ok not_running_said, files) = Unit
IsStopped (ok may_be_running_said, files) = Unit
IsStopped (err e, files) = Unit

-- A success leaves neither file.
abbrev pub IsCleared : Forced → Type 0
IsCleared f = f.result ≡ ok tt → (f.left.pid_file ≡ none) × (f.left.sock_exists ≡ false)

forced-IsCleared : (w : Result Bool × Files) → IsGone w → IsCleared (forced w)
forced-IsCleared (ok true, files) h e = (refl, h)
forced-IsCleared (ok false, files) h e = (refl, refl)
forced-IsCleared (err x, files) h e = absurd (ground (arith, e))

module _ (r : Reader) (requests : Json CtlRequest) (responses : Json CtlResponse)
    (process_exists : ℕ → Bool) where
  probed-IsRemoved :
      (files : Files) (answer : Result CtlResponse) → IsRemoved (probed process_exists files answer)
  unfolding is_protocol_error
  probed-IsRemoved files (ok (CtlResponse.status_is report)) = tt
  probed-IsRemoved files (ok (CtlResponse.peers_are peers)) = tt
  probed-IsRemoved files (ok CtlResponse.done) = tt
  probed-IsRemoved files (ok (CtlResponse.error code message)) = tt
  probed-IsRemoved files (err e) = elim (Bool-cases (is_protocol_error e)) [
    | inl t ↦ rw (IsRemoved, probed, t) tt
    | inr t ↦ rw (IsRemoved, probed, t) refl
  ]

  probe-IsRemoved :
      (sock : Socket) (files : Files)
      → IsRemoved (probe r requests responses process_exists sock files)
  unfolding probe
  probe-IsRemoved sock files = probed-IsRemoved files (handshake_status r requests responses sock)

  wait_gone-IsGone :
      (rounds : List Socket) (files : Files)
      → IsGone (wait_gone r requests responses process_exists rounds files)
  unfolding wait_gone
  wait_gone-IsGone [] files = tt
  wait_gone-IsGone (sock ∷ rounds) files =
      gone_or-IsGone (wait_gone r requests responses process_exists rounds)
        (probe r requests responses process_exists sock files) (wait_gone-IsGone rounds)
        (probe-IsRemoved sock files)

  asked-IsCleared :
      (rounds : List Socket) (files : Files) (sent : Result (Unit {0}))
      → IsCleared (asked r requests responses process_exists rounds files sent)
  unfolding asked
  asked-IsCleared rounds files (ok _) e =
      forced-IsCleared (wait_gone r requests responses process_exists rounds files)
        (wait_gone-IsGone rounds files) e
  asked-IsCleared rounds files (err x) e = absurd (ground (arith, e))

  requested-IsCleared :
      (mode : RuntimeMode) (sock : Socket) (rounds : List Socket) (p : Result Liveness × Files)
      → IsCleared (requested r requests responses process_exists mode sock rounds p)
  unfolding requested
  requested-IsCleared mode sock rounds (ok stopped, files) e = absurd (ground (arith, e))
  requested-IsCleared mode sock rounds (ok (running status rec), files) e =
      asked-IsCleared rounds files (send_shutdown r requests responses mode sock) e
  requested-IsCleared mode sock rounds (err x, files) e = absurd (ground (arith, e))

  -- A requested shutdown that succeeds leaves neither the pid file nor the socket, also when the daemon
  -- did not stop in time and is killed.
  pub request_shutdown_mode-IsCleared :
      (mode : RuntimeMode) (first sock : Socket) (rounds : List Socket) (files : Files)
      → IsCleared
          (request_shutdown_mode r requests responses process_exists mode first sock rounds files)
  unfolding request_shutdown_mode
  request_shutdown_mode-IsCleared mode first sock rounds files =
      requested-IsCleared mode sock rounds (probe r requests responses process_exists first files)

wait_stream-running :
    (rounds : List (Result Bool)) → All (λ p. p ≡ ok true) rounds → wait_stream rounds ≡ ok tt
unfolding wait_stream
wait_stream-running [] h = refl
wait_stream-running (p ∷ rounds) (e, h) = rw e (wait_stream-running rounds h)

-- `call down` says that the stream daemon has stopped also if every probe of the wait finds it running.
pub stream_cmd_down-running :
    (rounds : List (Result Bool))
    → All (λ p. p ≡ ok true) rounds
    → stream_cmd_down (ok true) (ok tt) rounds ≡ ok stopped_said
unfolding stream_cmd_down
stream_cmd_down-running rounds h = rw (wait_stream-running rounds h) refl
