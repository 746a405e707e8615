-- ===== src/StreamPhone.antt =====
-- The phone plane of src/stream_daemon_unix.rs: the calls that ring, the active session and what the
-- control socket sees of them. A connection is a number; `closed` lists those that the plane closed.
-- Times are in milliseconds. A result is `none` where the parser of peer tokens panics.
pub mod Pending
pub mod Sessions
pub mod Control
pub mod Queue
pub mod Ending
pub mod Answers
use link_p2p.Prelude.{
  ℕ, ◌-◌, ◌/◌, Bool, true, false, ◌&&◌, not, Option, none, some, List, [], ◌∷◌, ◌++◌, ltb, ◌==◌,
  length, map, if◌then◌else◌,
}
use link_p2p.Net.{Bytes, SocketAddr}
use link_p2p.Outcome.{Result, ok, err}
use link_p2p.Endpoint.{Endpoints}
use link_p2p.StreamCtl.{PendingCall, CtlResponse}
use link_p2p.Contacts.{IdText}
use link_p2p.Contacts.Book.{ContactBook, is_known_contact, match_peer_token}

-- The texts "idle", "dialing", "ringing" and "connected".
pub data Phase : Type 0 where
  idle dialing ringing connected : Phase

abbrev pub phase_text : Phase → Bytes
phase_text idle = b'i' ∷ b'd' ∷ b'l' ∷ b'e' ∷ []
phase_text dialing = b'd' ∷ b'i' ∷ b'a' ∷ b'l' ∷ b'i' ∷ b'n' ∷ b'g' ∷ []
phase_text ringing = b'r' ∷ b'i' ∷ b'n' ∷ b'g' ∷ b'i' ∷ b'n' ∷ b'g' ∷ []
phase_text connected = b'c' ∷ b'o' ∷ b'n' ∷ b'n' ∷ b'e' ∷ b'c' ∷ b't' ∷ b'e' ∷ b'd' ∷ []

pub record Ringing (NodeId : Type 0) : Type 0 where
  pub peer : NodeId
  pub conn : ℕ
  pub since : ℕ
  pub since_unix_ms : ℕ

-- `LiveState` with the tables that the plane shares with its tasks.
pub record Plane (NodeId : Type 0) : Type 0 where
  pub started : ℕ
  pub session : Bytes
  pub listen : Option SocketAddr
  pub forward : Option SocketAddr
  pub phase : Phase
  pub pending : List PendingCall
  pub peers : List Bytes
  pub calls : List (Ringing NodeId)
  pub active : Option (NodeId × ℕ)
  pub closed : List ℕ

unfoldable pub new_plane :
    {NodeId : Type 0} → ℕ → Bytes → Option SocketAddr → Option SocketAddr → Plane NodeId
new_plane now session listen forward = record {
  started = now;
  session = session;
  listen = listen;
  forward = forward;
  phase = idle;
  pending = [];
  peers = [];
  calls = [];
  active = none;
  closed = [];
}

-- "phone"
abbrev phone : Bytes
phone = b'p' ∷ b'h' ∷ b'o' ∷ b'n' ∷ b'e' ∷ []

unfoldable pub plane_status : {NodeId : Type 0} → ℕ → Plane NodeId → CtlResponse
plane_status now p = CtlResponse.status_is (record {
  role = phone;
  uptime_secs = (now - p.started) / 1000;
  session = p.session;
  phase = phase_text p.phase;
  listen = p.listen;
  forward = p.forward;
  pending_calls = p.pending;
})

abbrev pub ring_timeout : ℕ
ring_timeout = 120000

abbrev pub is_nil : {A : Type 0} → List A → Bool
is_nil [] = true
is_nil (_ ∷ _) = false

abbrev pub is_some : {A : Type 0} → Option A → Bool
is_some none = false
is_some (some _) = true

-- The end of a session, whichever session is active by then.
unfoldable pub session_ended : {NodeId : Type 0} → Plane NodeId → Plane NodeId
session_ended p = record p { active = none; peers = []; phase = idle }

-- `retain`: what stays and what is closed.
unfoldable pub retained :
    {NodeId : Type 0} → ℕ → List (Ringing NodeId) → List (Ringing NodeId) × List ℕ
retained now [] = ([], [])
retained now (r ∷ rs) =
    let rest = retained now rs in
    if ltb ring_timeout (now - r.since) then (rest.0, r.conn ∷ rest.1) else (r ∷ rest.0, rest.1)

-- A dial before it connects: `none` when the plane is busy.
unfoldable pub dial_begins : {NodeId : Type 0} → Plane NodeId → Option (Plane NodeId)
dial_begins p = if is_some p.active then none else some (record p { phase = dialing })

module _ {NodeId : Type 0} (ids : Endpoints NodeId) (texts : IdText NodeId)
    (book : ContactBook) where
  abbrev pub pending_call : Ringing NodeId → PendingCall
  pending_call r = record {
    peer = texts.to_text r.peer;
    since_unix_ms = r.since_unix_ms;
    direction = b'i' ∷ b'n' ∷ [];
  }

  unfoldable pub publish_pending : Plane NodeId → Plane NodeId
  publish_pending p = record p { pending = map pending_call p.calls }

  -- The peers are written by a task of their own, soon after.
  unfoldable pub spawn_stream_session : NodeId → ℕ → Plane NodeId → Plane NodeId
  spawn_stream_session peer conn p = record p {
    active = some (peer, conn);
    peers = texts.to_text peer ∷ [];
  }

  -- An incoming connection from `peer`.
  unfoldable pub incoming : ℕ → ℕ → NodeId → ℕ → Plane NodeId → Plane NodeId
  unfolding publish_pending spawn_stream_session
  incoming now now_unix_ms peer conn p =
      if is_some p.active
      then record p { closed = p.closed ++ conn ∷ [] }
      else if is_known_contact ids texts book peer
      then spawn_stream_session peer conn (record p { phase = connected })
      else publish_pending (record p {
        calls =
            p.calls
            ++ record { peer = peer; conn = conn; since = now; since_unix_ms = now_unix_ms } ∷ [];
        phase = ringing;
      })

  -- `position` and `remove`.
  unfoldable pub take_call :
      Bytes → List (Ringing NodeId) → Option (Option (Ringing NodeId) × List (Ringing NodeId))
  take_call token [] = some (none, [])
  take_call token (r ∷ rs) =
      let rest = take_call token rs in
      elim (match_peer_token ids texts book token r.peer) [
        | none ↦ none
        | some hit ↦
            if hit
            then some (some r, rs)
            else elim rest [ none ↦ none | some (found, others) ↦ some (found, r ∷ others) ]
      ]

  abbrev pub accepted :
      Plane NodeId → Option (Ringing NodeId) × List (Ringing NodeId) → Plane NodeId
  unfolding publish_pending spawn_stream_session
  accepted p (none, others) = p
  accepted p (some r, others) =
      spawn_stream_session r.peer r.conn
        (record (publish_pending (record p { calls = others })) { phase = connected })

  unfoldable pub accept_call : Bytes → Plane NodeId → Option (Plane NodeId)
  unfolding take_call
  accept_call token p = elim (take_call token p.calls) [
    | none ↦ none
    | some taken ↦ some (accepted p taken)
  ]

  abbrev pub rejected :
      Plane NodeId → Option (Ringing NodeId) × List (Ringing NodeId) → Plane NodeId
  unfolding publish_pending
  rejected p (none, others) = p
  rejected p (some r, others) =
      let p' = publish_pending (record p { calls = others; closed = p.closed ++ r.conn ∷ [] }) in
      if is_nil others then record p' { phase = idle } else p'

  unfoldable pub reject_call : Bytes → Plane NodeId → Option (Plane NodeId)
  unfolding take_call
  reject_call token p = elim (take_call token p.calls) [
    | none ↦ none
    | some taken ↦ some (rejected p taken)
  ]

  -- The end of a dial: no such peer, no address or no connection, or a connection. `forward` and `listen` matter
  -- to the session's own tasks only.
  unfoldable pub dial_ends : Option (NodeId × ℕ) → Plane NodeId → Plane NodeId
  unfolding spawn_stream_session
  dial_ends none p = record p { phase = idle }
  dial_ends (some (peer, conn)) p = spawn_stream_session peer conn (record p { phase = connected })

  -- The tick of each second.
  unfoldable pub tick : ℕ → Plane NodeId → Plane NodeId
  unfolding retained publish_pending
  tick now p =
      let kept = retained now p.calls in
      let p' = publish_pending (record p { calls = kept.0; closed = p.closed ++ kept.1 }) in
      if length kept.0 == length p.calls
      then p
      else if is_nil kept.0 && not (is_some p.active)
      then record p' { phase = idle }
      else p'
