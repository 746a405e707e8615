-- ===== src/StreamPhone/Sessions.antt =====
-- Where the phone plane of src/stream_daemon_unix.rs loses sight of its active session.
use link_p2p.Prelude.{ℕ, ◌≡◌, refl, ◌∙◌, ap, true, none, some, List, [], ◌∷◌}
use link_p2p.Net.{Bytes}
use link_p2p.Endpoint.{Endpoints}
use link_p2p.Contacts.{IdText}
use link_p2p.Contacts.Book.{ContactBook, match_peer_token}
use link_p2p.StreamPhone.{
  idle, Ringing, Plane, session_ended, take_call, accepted, accept_call, rejected, reject_call,
  publish_pending, spawn_stream_session,
}

module _ {NodeId : Type 0} (ids : Endpoints NodeId) (texts : IdText NodeId)
    (book : ContactBook) where
  take_first :
      (token : Bytes) (r : Ringing NodeId) (rs : List (Ringing NodeId))
      → match_peer_token ids texts book token r.peer ≡ some true
      → take_call ids texts book token (r ∷ rs) ≡ some (some r, rs)
  unfolding take_call
  take_first token r rs h = rw (take_call, h) refl

  -- When the only call that rings is rejected while a session is active, the plane shows the phase
  -- idle, though the session is still there.
  pub reject_call-idle :
      (token : Bytes) (r : Ringing NodeId) (p : Plane NodeId) (session : NodeId × ℕ)
      → p.calls ≡ r ∷ []
      → p.active ≡ some session
      → match_peer_token ids texts book token r.peer ≡ some true
      → (q : Plane NodeId) × (reject_call ids texts book token p ≡ some q)
        × (q.active ≡ some session)
        × (q.phase ≡ idle)
  unfolding reject_call publish_pending
  reject_call-idle token r p session c a m =
      let taken : take_call ids texts book token p.calls ≡ some (some r, []) =
        ap (take_call ids texts book token) c ∙ take_first token r [] m in
      (rejected ids texts book p (some r, []), rw (reject_call, taken) refl, a, refl)

  -- A call that is accepted while another session is active becomes the active one, and the first is
  -- not closed; when the first then ends, the plane shows no session and the phase idle, and has not
  -- closed the second either.
  pub accept_call-orphan :
      (token : Bytes) (r : Ringing NodeId) (rs : List (Ringing NodeId)) (p : Plane NodeId)
      (session : NodeId × ℕ)
      → p.calls ≡ r ∷ rs
      → p.active ≡ some session
      → match_peer_token ids texts book token r.peer ≡ some true
      → (q : Plane NodeId) × (accept_call ids texts book token p ≡ some q)
        × (q.active ≡ some (r.peer, r.conn))
        × ((session_ended q).active ≡ none)
        × ((session_ended q).phase ≡ idle)
        × ((session_ended q).closed ≡ p.closed)
  unfolding accept_call publish_pending spawn_stream_session session_ended
  accept_call-orphan token r rs p session c a m =
      let taken : take_call ids texts book token p.calls ≡ some (some r, rs) =
        ap (take_call ids texts book token) c ∙ take_first token r rs m in
      (accepted ids texts book p (some r, rs), rw (accept_call, taken) refl, refl, refl, refl, refl)
