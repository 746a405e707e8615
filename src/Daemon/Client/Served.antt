-- ===== src/Daemon/Client/Served.antt =====
-- A client of the TUN daemon's control socket and the daemon that serves it, together.
use link_p2p.Prelude.{ℕ, ◌≡◌, ◌≢◌, refl, sym, ◌∙◌, ap, Bool, false, Option, some, []}
use mathlib.Core.List.{append-nil}
use link_p2p.Net.{Bytes}
use link_p2p.Outcome
use link_p2p.Outcome.{
  Msg, Mismatch, Error, Result, ok, err, root, coded, exit_usage, exit_denied, exit_timeout,
  exit_daemon_not_running, code_from,
}
use link_p2p.Wire.{Reader, lift}
use link_p2p.TunCtl.{
  Json, CtlRequest, CtlResponse, ctl_version, encode_frame, encode_request, encode_response,
  read_request, read_response, validate_ctl_response, mismatch_kind, from_error,
}
use link_p2p.TunCtl.Slices.{read_request-encode_request, read_response-encode_response}
use link_p2p.TunCtl.Versions.{refusal, read_response-other_version}
use link_p2p.Tun.Live.{status_response}
use link_p2p.Daemon.{Worker, handle_ctl_request, handle_one_connection, denied}
use link_p2p.Daemon.Client.{
  RuntimeMode, Files, running, received, ask, handshake_status, expect_ok, send_expect_ok,
  is_protocol_error, probed, probe,
}

module _ (r : Reader) (requests : Json CtlRequest) (responses : Json CtlResponse) where
  -- A connection to a worker that answers in time.
  abbrev pub served : ℕ → Bool → Worker → Bytes → Option Bytes
  served now privileged w input =
      some (handle_one_connection r requests responses now privileged input w).0

  handled :
      (now : ℕ) (privileged : Bool) (w : Worker) (req : CtlRequest) (f f' : Bytes)
      → encode_request requests req ≡ ok f
      → encode_response responses (handle_ctl_request now req privileged w).0 ≡ ok f'
      → handle_one_connection r requests responses now privileged f w
        ≡ (f', (handle_ctl_request now req privileged w).1)
  unfolding handle_one_connection
  handled now privileged w req f f' h h' =
      let back : read_request r requests f ≡ ok (req, []) =
        ap (read_request r requests) (sym (append-nil f))
        ∙ read_request-encode_request r requests req f [] h in
      rw (handle_one_connection, back, h') refl

  received-lift :
      (late : Error) (bytes : Bytes) (v : Result CtlResponse)
      → read_response r responses bytes ≡ lift v []
      → received r requests responses late (some bytes) ≡ v
  received-lift late bytes (ok resp) h = rw (received, h) refl
  received-lift late bytes (err e) h = rw (received, h) refl

  -- What a client gets for a request is the daemon's answer to this request, checked against the cap
  -- on peers, when both can be encoded.
  pub ask-served :
      (now : ℕ) (privileged : Bool) (w : Worker) (late : Error) (req : CtlRequest) (f f' : Bytes)
      → encode_request requests req ≡ ok f
      → encode_response responses (handle_ctl_request now req privileged w).0 ≡ ok f'
      → ask r requests responses late req (served now privileged w)
        ≡ validate_ctl_response (handle_ctl_request now req privileged w).0
  unfolding ask
  ask-served now privileged w late req f f' h h' =
      let resp = (handle_ctl_request now req privileged w).0 in
      let back : read_response r responses f' ≡ lift (validate_ctl_response resp) [] =
        ap (read_response r responses) (sym (append-nil f'))
        ∙ read_response-encode_response r responses resp f' [] h' in
      rw (ask, h, handled now privileged w req f f' h h')
        (received-lift late f' (validate_ctl_response resp) back)

  -- A client that connects learns the daemon's status as it is, whoever it is.
  pub handshake_status-served :
      (now : ℕ) (privileged : Bool) (w : Worker) (f f' : Bytes)
      → encode_request requests CtlRequest.status ≡ ok f
      → encode_response responses (status_response w.hooks.state now) ≡ ok f'
      → handshake_status r requests responses (ok (served now privileged w))
        ≡ ok (status_response w.hooks.state now)
  unfolding handshake_status handle_ctl_request validate_ctl_response status_response
  handshake_status-served now privileged w f f' h h' =
      ask-served now privileged w (root Msg.control_timed_out) CtlRequest.status f f' h h'

  -- `send_expect_ok` succeeds exactly on the answer OK of the daemon, and gives the exit code and the
  -- message of a refusal.
  pub send_expect_ok-served :
      (mode : RuntimeMode) (now : ℕ) (privileged : Bool) (w : Worker) (req : CtlRequest)
      (f f' : Bytes)
      → encode_request requests req ≡ ok f
      → encode_response responses (handle_ctl_request now req privileged w).0 ≡ ok f'
      → send_expect_ok r requests responses mode req (ok (served now privileged w))
        ≡ Outcome.◌>>=◌
            (validate_ctl_response (handle_ctl_request now req privileged w).0)
            expect_ok
  unfolding send_expect_ok
  send_expect_ok-served mode now privileged w req f f' h h' =
      rw
        (ask-served now privileged w (coded exit_timeout (root Msg.request_timed_out)) req f f' h
          h')
        refl

  -- A peer that is refused for want of privileges sees the exit code DENIED.
  pub send_expect_ok-denied :
      (mode : RuntimeMode) (now : ℕ) (w : Worker) (req : CtlRequest) (f f' : Bytes)
      → encode_request requests req ≡ ok f
      → handle_ctl_request now req false w ≡ (denied, w)
      → encode_response responses denied ≡ ok f'
      → send_expect_ok r requests responses mode req (ok (served now false w))
        ≡ err (coded exit_denied (root Msg.permission_denied))
  unfolding validate_ctl_response
  send_expect_ok-denied mode now w req f f' h d h' =
      let refused : (handle_ctl_request now req false w).0 ≡ denied = ap (λ p. p.0) d in
      let e : encode_response responses (handle_ctl_request now req false w).0 ≡ ok f' =
        ap (encode_response responses) refused ∙ h' in
      send_expect_ok-served mode now false w req f f' h e ∙ rw refused refl

  refused_version :
      (v : ℕ) (body frame request : Bytes)
      → encode_request requests CtlRequest.status ≡ ok request
      → encode_frame v body ≡ ok frame
      → v ≢ ctl_version
      → handshake_status r requests responses (ok (λ _. some frame)) ≡ err (refusal v)
  unfolding handshake_status ask
  refused_version v body frame request h e ne =
      let back : read_response r responses frame ≡ err (refusal v) =
        ap (read_response r responses) (sym (append-nil frame))
        ∙ read_response-other_version r responses v body frame [] e ne in
      rw (handshake_status, ask, h, received, back) refl

  kept_files :
      (process_exists : ℕ → Bool) (files : Files) (v : ℕ)
      → probed process_exists files (err (refusal v)) ≡ (err (refusal v), files)
  unfolding probed is_protocol_error from_error Outcome.chain
  kept_files process_exists files v = refl

  -- A daemon of another protocol version that answers is an error with exit code 2, and nothing is
  -- removed.
  pub probe-other_version :
      (process_exists : ℕ → Bool) (files : Files) (v : ℕ) (body frame request : Bytes)
      → encode_request requests CtlRequest.status ≡ ok request
      → encode_frame v body ≡ ok frame
      → v ≢ ctl_version
      → (probe r requests responses process_exists (ok (λ _. some frame)) files ≡ (
        err (coded exit_usage (root (Msg.protocol_mismatch (mismatch_kind v) v ctl_version))),
        files,
      ))
        × (code_from
              (coded exit_usage (root (Msg.protocol_mismatch (mismatch_kind v) v ctl_version)))
            ≡ exit_usage)
  unfolding probe code_from
  probe-other_version process_exists files v body frame request h e ne = (
    ap (probed process_exists files) (refused_version v body frame request h e ne)
        ∙ kept_files process_exists files v,
    refl,
  )

  -- A daemon that answers is running, with the status that it has, and nothing is removed.
  pub probe-status :
      (process_exists : ℕ → Bool) (files : Files) (now : ℕ) (privileged : Bool) (w : Worker)
      (f f' : Bytes)
      → encode_request requests CtlRequest.status ≡ ok f
      → encode_response responses (status_response w.hooks.state now) ≡ ok f'
      → probe r requests responses process_exists (ok (served now privileged w)) files
        ≡ (ok (running (status_response w.hooks.state now) files.pid_file), files)
  unfolding probe status_response probed
  probe-status process_exists files now privileged w f f' h h' =
      rw (handshake_status-served now privileged w f f' h h') refl
