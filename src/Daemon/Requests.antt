-- ===== src/Daemon/Requests.antt =====
-- What a control request does to the TUN daemon of src/tun_daemon.
use link_p2p.Prelude.{
  ℕ, ◌<◌, ◌≢◌, ◌≡◌, refl, sym, ap, Bool, true, false, ◌||◌, Option, none, some, [], ◌∷◌, ◌++◌, ltb,
  length, Bool-cases, arith, inl, inr, if◌then◌else◌,
}
use mathlib.Core.Option.{some-injective}
use link_p2p.Outcome.{Msg, Error, ok, err, root, exit_usage}
use link_p2p.TunCtl.{CtlRequest, CtlResponse}
use link_p2p.Daemon.{
  CallCmd, dial, accept, reject, CallQueue, try_send, TunHooks, Worker, send_to, try_send_call_cmd,
  reply_of, denied, handle_ctl_request, request_shutdown, resolve_ctl_privilege, peer_is_privileged,
  token_of,
}

-- The requests that change the daemon for everybody.
abbrev pub is_privileged_request : CtlRequest → Bool
is_privileged_request CtlRequest.shutdown = true
is_privileged_request (CtlRequest.accept peer) = true
is_privileged_request (CtlRequest.reject peer) = true
is_privileged_request _ = false

-- When privileges are required, a peer that is neither root nor the daemon's own user, or whose
-- user is unknown, has no request served that accepts or rejects a call or stops the daemon: the
-- answer is DENIED, and nothing changes.
pub handle_ctl_request-denied :
    (now euid uid : ℕ) (req : CtlRequest) (w : Worker) (known : Bool)
    → is_privileged_request req ≡ true
    → 0 < uid
    → uid ≢ euid
    → handle_ctl_request now req (token_of true euid (if known then some uid else none)) w
      ≡ (denied, w)
unfolding handle_ctl_request token_of resolve_ctl_privilege peer_is_privileged
handle_ctl_request-denied now euid uid CtlRequest.shutdown w known p pos ne =
    ground (arith, pos, ne)
handle_ctl_request-denied now euid uid (CtlRequest.accept peer) w known p pos ne =
    ground (arith, pos, ne)
handle_ctl_request-denied now euid uid (CtlRequest.reject peer) w known p pos ne =
    ground (arith, pos, ne)
handle_ctl_request-denied now euid uid CtlRequest.status w known p pos ne =
    absurd (ground (arith, p))
handle_ctl_request-denied now euid uid CtlRequest.peers w known p pos ne =
    absurd (ground (arith, p))
handle_ctl_request-denied now euid uid (CtlRequest.call to) w known p pos ne =
    absurd (ground (arith, p))

-- The command that a request puts in the phone's queue.
abbrev pub command_of : CtlRequest → Option CallCmd
command_of (CtlRequest.call to) = some (dial to)
command_of (CtlRequest.accept peer) = some (accept peer)
command_of (CtlRequest.reject peer) = some (reject peer)
command_of _ = none

abbrev pub with_queue : Worker → CallQueue → Worker
with_queue w q = record w { hooks = record w.hooks { call_tx = some q } }

abbrev pub with_cmd : CallQueue → CallCmd → CallQueue
with_cmd q cmd = record q { queued = q.queued ++ cmd ∷ [] }

try_send_room :
    (q : CallQueue) (cmd : CallCmd)
    → q.receiving ≡ true
    → ltb (length q.queued) q.capacity ≡ true
    → try_send q cmd ≡ some (with_cmd q cmd)
unfolding try_send
try_send_room q cmd o t = ground (arith, o, t)

try_send_full :
    (q : CallQueue) (cmd : CallCmd)
    → q.receiving ≡ true
    → ltb (length q.queued) q.capacity ≡ false
    → try_send q cmd ≡ none
unfolding try_send
try_send_full q cmd o t = ground (arith, o, t)

send_to-some :
    (tx : Option CallQueue) (q : CallQueue) (cmd : CallCmd) (after : Option CallQueue)
    → tx ≡ some q
    → try_send q cmd ≡ after
    → send_to tx cmd ≡ elim after [ none ↦ err (root Msg.call_queue_full) | some q' ↦ ok q' ]
send_to-some tx q cmd after h e = rw (h, send_to, e) refl

cmd_sent :
    (h : TunHooks) (q : CallQueue) (cmd : CallCmd)
    → send_to h.call_tx cmd ≡ ok q
    → try_send_call_cmd cmd h ≡ (ok tt, record h { call_tx = some q })
unfolding try_send_call_cmd
cmd_sent h q cmd e = rw (try_send_call_cmd, e) refl

cmd_refused :
    (h : TunHooks) (cmd : CallCmd) (e : Error)
    → send_to h.call_tx cmd ≡ err e
    → try_send_call_cmd cmd h ≡ (err e, h)
unfolding try_send_call_cmd
cmd_refused h cmd e r = rw (try_send_call_cmd, r) refl

sent_some :
    (w : Worker) (q q' : CallQueue) (cmd : CallCmd)
    → w.hooks.call_tx ≡ some q
    → try_send q cmd ≡ some q'
    → reply_of w (try_send_call_cmd cmd w.hooks) ≡ (CtlResponse.done, with_queue w q')
sent_some w q q' cmd h e =
    ap (reply_of w) (cmd_sent w.hooks q' cmd (send_to-some w.hooks.call_tx q cmd (some q') h e))

sent_none :
    (w : Worker) (q : CallQueue) (cmd : CallCmd)
    → w.hooks.call_tx ≡ some q
    → try_send q cmd ≡ none
    → reply_of w (try_send_call_cmd cmd w.hooks)
      ≡ (CtlResponse.error exit_usage Msg.call_queue_full, w)
sent_none w q cmd h e = ap (reply_of w) (
    cmd_refused w.hooks cmd (root Msg.call_queue_full)
      (send_to-some w.hooks.call_tx q cmd none h e))

sent_lem :
    (w : Worker) (q : CallQueue) (cmd : CallCmd)
    → w.hooks.call_tx ≡ some q
    → q.receiving ≡ true
    → reply_of w (try_send_call_cmd cmd w.hooks) ≡ (
        if ltb (length q.queued) q.capacity
        then (CtlResponse.done, with_queue w (with_cmd q cmd))
        else (CtlResponse.error exit_usage Msg.call_queue_full, w))
sent_lem w q cmd h o = elim (Bool-cases (ltb (length q.queued) q.capacity)) [
  | inl t ↦ rw t (sent_some w q (with_cmd q cmd) cmd h (try_send_room q cmd o t))
  | inr t ↦ rw t (sent_none w q cmd h (try_send_full q cmd o t))
]

-- A call, and with the token an accept or a reject, goes to the end of the phone's queue while that
-- has room, and the answer is OK; when it is full the answer is a usage error and nothing changes.
pub handle_ctl_request-queued :
    (now : ℕ) (req : CtlRequest) (w : Worker) (q : CallQueue) (cmd : CallCmd)
    → command_of req ≡ some cmd
    → w.hooks.call_tx ≡ some q
    → q.receiving ≡ true
    → handle_ctl_request now req true w ≡ (
        if ltb (length q.queued) q.capacity
        then (CtlResponse.done, with_queue w (with_cmd q cmd))
        else (CtlResponse.error exit_usage Msg.call_queue_full, w))
unfolding handle_ctl_request
handle_ctl_request-queued now (CtlRequest.call to) w q cmd c h o =
    rw (sym (some-injective _ _ c)) (sent_lem w q (dial to) h o)
handle_ctl_request-queued now (CtlRequest.accept peer) w q cmd c h o =
    rw (sym (some-injective _ _ c)) (sent_lem w q (accept peer) h o)
handle_ctl_request-queued now (CtlRequest.reject peer) w q cmd c h o =
    rw (sym (some-injective _ _ c)) (sent_lem w q (reject peer) h o)
handle_ctl_request-queued now CtlRequest.status w q cmd c h o = absurd (ground (arith, c))
handle_ctl_request-queued now CtlRequest.peers w q cmd c h o = absurd (ground (arith, c))
handle_ctl_request-queued now CtlRequest.shutdown w q cmd c h o = absurd (ground (arith, c))

-- A shutdown that the daemon answers with OK reaches the data plane only if this waits for it at that
-- moment; otherwise the control socket closes and the data plane was not woken.
pub handle_ctl_request-shutdown :
    (now : ℕ) (w : Worker)
    → ((handle_ctl_request now CtlRequest.shutdown true w).0 ≡ CtlResponse.done)
      × ((handle_ctl_request now CtlRequest.shutdown true w).1.shutdown ≡ true)
      × ((handle_ctl_request now CtlRequest.shutdown true w).1.hooks.cancelled
          ≡ (w.hooks.cancelled || w.hooks.waiting))
unfolding handle_ctl_request request_shutdown
handle_ctl_request-shutdown now w = (refl, refl, refl)
