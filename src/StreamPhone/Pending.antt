-- ===== src/StreamPhone/Pending.antt =====
-- The pending calls that the control socket of src/stream_daemon_unix.rs shows, and the calls that
-- ring.
use link_p2p.Prelude.{
  ℕ, ◌+◌, ◌-◌, ◌≤◌, ◌≡◌, refl, sym, ◌∙◌, ◌&&◌, not, Option, none, some, List, [], ◌∷◌, ltb, ◌==◌,
  length, map, All, Bool-cases, arith, inl, inr,
}
use mathlib.Core.Option.{some-injective}
use mathlib.Core.Path.{subst}
use link_p2p.Net.{Bytes, SocketAddr}
use link_p2p.Endpoint.{Endpoints}
use link_p2p.Contacts.{IdText}
use link_p2p.Contacts.Book.{ContactBook, is_known_contact}
use link_p2p.StreamPhone.{
  dialing, Ringing, Plane, new_plane, ring_timeout, is_nil, is_some, session_ended, retained,
  pending_call, publish_pending, spawn_stream_session, incoming, take_call, accepted, accept_call,
  rejected, reject_call, dial_begins, dial_ends, tick,
}

-- A call that rings longer than two minutes is closed by the next tick, and no other is: what stays is
-- younger, and every call stays or is closed.
pub retained-fresh :
    {NodeId : Type 0} (now : ℕ) (calls : List (Ringing NodeId))
    → (All (λ r. now - r.since ≤ 120000) (retained now calls).0)
      × (length (retained now calls).0 + length (retained now calls).1 ≡ length calls)
unfolding retained
retained-fresh now [] = (tt, refl)
retained-fresh now (r ∷ rs) =
    let (fresh, total) = retained-fresh now rs in
    elim (Bool-cases (ltb ring_timeout (now - r.since))) [
      | inl t ↦ rw t (fresh, omega (arith, total))
      | inr t ↦ rw t ((ground (arith, t), fresh), omega (arith, total))
    ]

module _ {NodeId : Type 0} (ids : Endpoints NodeId) (texts : IdText NodeId)
    (book : ContactBook) where
  -- What can happen to the plane, in any order.
  pub data Step : Plane NodeId → Plane NodeId → Type 0 where
    rung :
        (p : Plane NodeId) (now now_unix_ms : ℕ) (peer : NodeId) (conn : ℕ)
        → Step p (incoming ids texts book now now_unix_ms peer conn p)
    accept_asked :
        (p q : Plane NodeId) (token : Bytes)
        → accept_call ids texts book token p ≡ some q
        → Step p q
    reject_asked :
        (p q : Plane NodeId) (token : Bytes)
        → reject_call ids texts book token p ≡ some q
        → Step p q
    dial_asked : (p q : Plane NodeId) → dial_begins p ≡ some q → Step p q
    dialed :
        (p : Plane NodeId) (answer : Option (NodeId × ℕ))
        → Step p (dial_ends ids texts book answer p)
    ended : (p : Plane NodeId) → Step p (session_ended p)
    ticked : (p : Plane NodeId) (now : ℕ) → Step p (tick ids texts book now p)

  pub data Reach (s : Plane NodeId) : Plane NodeId → Type 0 where
    here : Reach s s
    next : {t u : Plane NodeId} → Reach s t → Step t u → Reach s u

  abbrev pub IsPublished : Plane NodeId → Type 0
  IsPublished p = p.pending ≡ map (pending_call ids texts book) p.calls

  incoming-IsPublished :
      (now now_unix_ms : ℕ) (peer : NodeId) (conn : ℕ) (p : Plane NodeId)
      → IsPublished p
      → IsPublished (incoming ids texts book now now_unix_ms peer conn p)
  unfolding incoming publish_pending spawn_stream_session
  incoming-IsPublished now now_unix_ms peer conn p h = elim (Bool-cases (is_some p.active)) [
    | inl t ↦ rw t h
    | inr t ↦ elim (Bool-cases (is_known_contact ids texts book peer)) [
      | inl k ↦ rw (t, k) h
      | inr k ↦ rw (t, k) refl
    ]
  ]

  accepted-IsPublished :
      (p : Plane NodeId) (taken : Option (Ringing NodeId) × List (Ringing NodeId))
      → IsPublished p
      → IsPublished (accepted ids texts book p taken)
  unfolding publish_pending spawn_stream_session
  accepted-IsPublished p (none, others) h = h
  accepted-IsPublished p (some r, others) h = refl

  rejected-IsPublished :
      (p : Plane NodeId) (taken : Option (Ringing NodeId) × List (Ringing NodeId))
      → IsPublished p
      → IsPublished (rejected ids texts book p taken)
  unfolding publish_pending
  rejected-IsPublished p (none, others) h = h
  rejected-IsPublished p (some r, []) h = refl
  rejected-IsPublished p (some r, o ∷ others) h = refl

  dial_begins-IsPublished :
      (p q : Plane NodeId) → dial_begins p ≡ some q → IsPublished p → IsPublished q
  unfolding dial_begins
  dial_begins-IsPublished p q h w = elim (Bool-cases (is_some p.active)) [
    | inl t ↦ absurd (ground (arith, h, t))
    | inr t ↦
        let free : dial_begins p ≡ some (record p { phase = dialing }) = rw t refl in
        subst IsPublished (some-injective (record p { phase = dialing }) q (sym free ∙ h)) w
  ]

  dial_ends-IsPublished :
      (answer : Option (NodeId × ℕ)) (p : Plane NodeId)
      → IsPublished p
      → IsPublished (dial_ends ids texts book answer p)
  unfolding dial_ends spawn_stream_session
  dial_ends-IsPublished none p h = h
  dial_ends-IsPublished (some (peer, conn)) p h = h

  tick-IsPublished :
      (now : ℕ) (p : Plane NodeId) → IsPublished p → IsPublished (tick ids texts book now p)
  unfolding tick publish_pending
  tick-IsPublished now p h = elim (Bool-cases (length (retained now p.calls).0 == length p.calls)) [
    | inl t ↦ rw t h
    | inr t ↦ elim (Bool-cases (is_nil (retained now p.calls).0 && not (is_some p.active))) [
      | inl k ↦ rw (t, k) refl
      | inr k ↦ rw (t, k) refl
    ]
  ]

  -- The plane after a request that took a call, or that panicked.
  settled :
      (f : Option (Ringing NodeId) × List (Ringing NodeId) → Plane NodeId)
      (taken : Option (Option (Ringing NodeId) × List (Ringing NodeId))) (q : Plane NodeId)
      → ((t : Option (Ringing NodeId) × List (Ringing NodeId)) → IsPublished (f t))
      → elim taken [ none ↦ none | some t ↦ some (f t) ] ≡ some q
      → IsPublished q
  settled f none q w h = absurd (ground (arith, h))
  settled f (some t) q w h = subst IsPublished (some-injective (f t) q h) (w t)

  Step-IsPublished : {p q : Plane NodeId} → Step p q → IsPublished p → IsPublished q
  unfolding accept_call reject_call dial_begins session_ended
  Step-IsPublished (rung p now now_unix_ms peer conn) w =
      incoming-IsPublished now now_unix_ms peer conn p w
  Step-IsPublished (accept_asked p q token h) w =
      settled (accepted ids texts book p) (take_call ids texts book token p.calls) q
        (λ t. accepted-IsPublished p t w) h
  Step-IsPublished (reject_asked p q token h) w =
      settled (rejected ids texts book p) (take_call ids texts book token p.calls) q
        (λ t. rejected-IsPublished p t w) h
  Step-IsPublished (dial_asked p q h) w = dial_begins-IsPublished p q h w
  Step-IsPublished (dialed p answer) w = dial_ends-IsPublished answer p w
  Step-IsPublished (ended p) w = w
  Step-IsPublished (ticked p now) w = tick-IsPublished now p w

  reached : {s p : Plane NodeId} → Reach s p → IsPublished s → IsPublished p
  reached here w = w
  reached (next r step) w = Step-IsPublished step (reached r w)

  -- Whatever happened to the plane, the pending calls that the control socket shows are the calls that
  -- ring, in their order.
  pub Reach-IsPublished :
      {p : Plane NodeId} (now : ℕ) (session : Bytes) (listen forward : Option SocketAddr)
      → Reach (new_plane now session listen forward) p
      → p.pending ≡ map (pending_call ids texts book) p.calls
  unfolding new_plane
  Reach-IsPublished now session listen forward r = reached r refl
