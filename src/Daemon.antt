-- ===== src/Daemon.antt =====
-- src/tun/mod.rs, src/tun_daemon/mod.rs and src/tun_daemon/unix.rs: the hooks between the control
-- socket of the TUN daemon and its data plane, and how one control connection is served.
pub mod Requests
pub mod Client
pub mod PidFile
pub mod Roles
pub mod Down
use link_p2p.Prelude.{
  ℕ, ◌+◌, Bool, true, false, ◌&&◌, ◌||◌, not, Option, none, some, List, [], ◌∷◌, ◌++◌, ltb, ◌==◌,
  length, if◌then◌else◌,
}
use link_p2p.Net.{Bytes}
use link_p2p.Outcome.{Msg, Error, Result, ok, err, root, exit_usage, exit_denied}
use link_p2p.Wire.{Reader}
use link_p2p.TunCtl.{Json, CtlRequest, CtlResponse, read_request, encode_response}
use link_p2p.Tun.Live.{TunLiveState, status_response, peers_response}

pub data CallCmd : Type 0 where
  dial accept reject : Bytes → CallCmd

-- tokio's bounded channel: `capacity` commands wait at most, until the receiver is dropped.
pub record CallQueue : Type 0 where
  pub capacity : ℕ
  pub receiving : Bool
  pub queued : List CallCmd

unfoldable pub try_send : CallQueue → CallCmd → Option CallQueue
try_send q cmd =
    if q.receiving && ltb (length q.queued) q.capacity
    then some (record q { queued = q.queued ++ cmd ∷ [] })
    else none

pub data Ready : Type 0 where
  unsent : Ready
  sent : Result (Unit {0}) → Ready

-- `waiting`: the data plane is at `cancel.notified()`. `cancelled`: it was woken there.
pub record TunHooks : Type 0 where
  pub state : TunLiveState
  pub ready : Ready
  pub call_tx : Option CallQueue
  pub waiting : Bool
  pub cancelled : Bool

unfoldable pub new_hooks : TunLiveState → TunHooks
new_hooks state = record {
  state = state;
  ready = unsent;
  call_tx = none;
  waiting = false;
  cancelled = false;
}

-- `g.take()`: only the first signal is sent.
abbrev pub first_signal : Ready → Result (Unit {0}) → Ready
first_signal unsent result = sent result
first_signal (sent earlier) result = sent earlier

unfoldable pub signal_ready : Result (Unit {0}) → TunHooks → TunHooks
signal_ready result h = record h { ready = first_signal h.ready result }

-- `notify_waiters` wakes who waits at this moment, and nobody later.
unfoldable pub request_shutdown : TunHooks → TunHooks
request_shutdown h = record h { waiting = false; cancelled = h.cancelled || h.waiting }

unfoldable pub register_call_tx : CallQueue → TunHooks → TunHooks
register_call_tx tx h = record h { call_tx = some tx }

abbrev pub send_to : Option CallQueue → CallCmd → Result CallQueue
send_to none cmd = err (root Msg.not_phone_mode)
send_to (some q) cmd = elim (try_send q cmd) [
  | none ↦ err (root Msg.call_queue_full)
  | some q' ↦ ok q'
]

unfoldable pub try_send_call_cmd : CallCmd → TunHooks → Result (Unit {0}) × TunHooks
unfolding try_send
try_send_call_cmd cmd h = elim (send_to h.call_tx cmd) [
  | ok q ↦ (ok tt, record h { call_tx = some q })
  | err e ↦ (err e, h)
]

-- The hooks and the value of the `watch` channel that stops the accept loop.
pub record Worker : Type 0 where
  pub hooks : TunHooks
  pub shutdown : Bool

-- `format!("{e:#}")` of an error without contexts is its message.
abbrev pub message_of : Error → Msg
message_of (root m) = m
message_of (Error.context m e) = m
message_of (Error.coded c e) = message_of e

abbrev pub reply_of : Worker → Result (Unit {0}) × TunHooks → CtlResponse × Worker
reply_of w (ok _, h) = (CtlResponse.done, record w { hooks = h })
reply_of w (err e, h) = (CtlResponse.error exit_usage (message_of e), record w { hooks = h })

abbrev pub denied : CtlResponse
denied = CtlResponse.error exit_denied Msg.permission_denied

-- `privileged` tells whether there is a token.
unfoldable pub handle_ctl_request : ℕ → CtlRequest → Bool → Worker → CtlResponse × Worker
unfolding try_send_call_cmd request_shutdown
handle_ctl_request now CtlRequest.status privileged w = (status_response w.hooks.state now, w)
handle_ctl_request now CtlRequest.peers privileged w = (peers_response w.hooks.state, w)
handle_ctl_request now (CtlRequest.call to) privileged w =
    reply_of w (try_send_call_cmd (dial to) w.hooks)
handle_ctl_request now (CtlRequest.accept peer) privileged w =
    if privileged then reply_of w (try_send_call_cmd (accept peer) w.hooks) else (denied, w)
handle_ctl_request now (CtlRequest.reject peer) privileged w =
    if privileged then reply_of w (try_send_call_cmd (reject peer) w.hooks) else (denied, w)
handle_ctl_request now CtlRequest.shutdown privileged w =
    if privileged
    then (CtlResponse.done, record { hooks = request_shutdown w.hooks; shutdown = true })
    else (denied, w)

unfoldable pub resolve_ctl_privilege : Bool → Bool → Bool
resolve_ctl_privilege require_privilege is_privileged = not require_privilege || is_privileged

-- The user of the peer, when the system tells it.
unfoldable pub peer_is_privileged : ℕ → Option ℕ → Bool
peer_is_privileged euid none = false
peer_is_privileged euid (some uid) = uid == 0 || uid == euid

-- Whether the peer holds the token.
unfoldable pub token_of : Bool → ℕ → Option ℕ → Bool
unfolding resolve_ctl_privilege peer_is_privileged
token_of require_privilege euid cred =
    resolve_ctl_privilege require_privilege (peer_is_privileged euid cred)

-- What is sent back to a client that sent `input` in time. A response that cannot be encoded is
-- dropped, as is a request that cannot be read.
unfoldable pub handle_one_connection :
    Reader → Json CtlRequest → Json CtlResponse → ℕ → Bool → Bytes → Worker → Bytes × Worker
unfolding handle_ctl_request
handle_one_connection r requests responses now privileged input w =
    elim (read_request r requests input) [
      | err e ↦ ([], w)
      | ok (req, rest) ↦
          let (resp, w') = handle_ctl_request now req privileged w in
          elim (encode_response responses resp) [ ok frame ↦ (frame, w') | err e ↦ ([], w') ]
    ]
