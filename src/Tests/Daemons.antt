-- ===== src/Tests/Daemons.antt =====
-- The control socket of a TUN daemon and its pid file, at concrete requests.
use link_p2p.Prelude.{◌≡◌, refl, true, false, none, some, [], ◌∷◌, arith, if◌then◌else◌}
use link_p2p.Net.{Bytes}
use link_p2p.Outcome.{Msg, ok, root}
use link_p2p.Wire.Slice.{slice_reader}
use link_p2p.TunCtl.{
  CtlRequest, encode_frame, encode_request, encode_response, validate_ctl_response,
}
use link_p2p.Tun.Live.{new_live}
use link_p2p.Daemon.{
  CallQueue, new_hooks, register_call_tx, Worker, try_send, try_send_call_cmd, handle_ctl_request,
  denied, token_of,
}
use link_p2p.Daemon.Requests.{handle_ctl_request-denied}
use link_p2p.Daemon.Client.{ask}
use link_p2p.Daemon.Client.Served.{served, ask-served}
use link_p2p.Tests.Stubs.{tun_requests, tun_responses}

abbrev call_queue : CallQueue
call_queue = record { capacity = 32; receiving = true; queued = [] }

-- A phone that waits for calls.
abbrev phone : Worker
phone = record {
  hooks = register_call_tx call_queue (new_hooks (new_live [] [] 0));
  shutdown = false;
}

handle_ctl_request-denied_example :
    handle_ctl_request 5 CtlRequest.shutdown
      (token_of true 1000 (if true then some 1001 else none))
      phone
    ≡ (denied, phone)
handle_ctl_request-denied_example =
    handle_ctl_request-denied 5 1000 1001 CtlRequest.shutdown phone true refl (omega arith)
      (λ h. omega (arith, h))

abbrev call_frame : Bytes
call_frame = b'L' ∷ b'P' ∷ b'C' ∷ b'1' ∷ 2 ∷ 0 ∷ 0 ∷ 0 ∷ 2 ∷ 0 ∷ 7 ∷ []

abbrev done_frame : Bytes
done_frame = b'L' ∷ b'P' ∷ b'C' ∷ b'1' ∷ 2 ∷ 0 ∷ 0 ∷ 0 ∷ 2 ∷ 123 ∷ 125 ∷ []

call_encoded : encode_request tun_requests (CtlRequest.call (7 ∷ [])) ≡ ok call_frame
unfolding encode_request encode_frame
call_encoded = refl

done_encoded :
    encode_response tun_responses (handle_ctl_request 5 (CtlRequest.call (7 ∷ [])) false phone).0
    ≡ ok done_frame
unfolding encode_response encode_frame handle_ctl_request try_send_call_cmd try_send
    register_call_tx
done_encoded = refl

ask-served_example :
    ask slice_reader tun_requests tun_responses
      (root Msg.control_timed_out)
      (CtlRequest.call (7 ∷ []))
      (served slice_reader tun_requests tun_responses 5 false phone)
    ≡ validate_ctl_response (handle_ctl_request 5 (CtlRequest.call (7 ∷ [])) false phone).0
ask-served_example =
    ask-served slice_reader tun_requests tun_responses 5 false phone (root Msg.control_timed_out)
      (CtlRequest.call (7 ∷ [])) call_frame done_frame call_encoded done_encoded
