-- ===== src/Tun/Phase/Edges.antt =====
-- The phase machine of src/tun/mod.rs against an independent table of its illegal edges.
use link_p2p.Prelude.{◌≡◌, refl, ◌≢◌, ◌↔◌, ◌⊎◌, List, [], ◌∷◌, arith}
use link_p2p.Tun.Phase.{
  SessionPhase, starting, idle, dialing, ringing, connected, PhaseEvent, ready, begin_dial, ring,
  peer_left, reset, illegal, transition, apply_phase,
}

-- A worker that is starting can only become ready or connected, and a dial cannot begin over a
-- dial or a ring.
pub data IsIllegal : SessionPhase → PhaseEvent → Type 0 where
  dial_early : IsIllegal starting begin_dial
  ring_early : IsIllegal starting ring
  leave_early : IsIllegal starting peer_left
  reset_early : IsIllegal starting reset
  dial_over_dial : IsIllegal dialing begin_dial
  dial_over_ring : IsIllegal ringing begin_dial

IsIllegal-transition :
    {p : SessionPhase} {ev : PhaseEvent} → IsIllegal p ev → transition p ev ≡ illegal p ev
unfolding transition
IsIllegal-transition dial_early = refl
IsIllegal-transition ring_early = refl
IsIllegal-transition leave_early = refl
IsIllegal-transition reset_early = refl
IsIllegal-transition dial_over_dial = refl
IsIllegal-transition dial_over_ring = refl

transition-IsIllegal :
    (p q : SessionPhase) (ev e : PhaseEvent) → transition p ev ≡ illegal q e → IsIllegal p ev
unfolding transition
transition-IsIllegal starting q begin_dial e h = dial_early
transition-IsIllegal starting q ring e h = ring_early
transition-IsIllegal starting q peer_left e h = leave_early
transition-IsIllegal starting q reset e h = reset_early
transition-IsIllegal dialing q begin_dial e h = dial_over_dial
transition-IsIllegal ringing q begin_dial e h = dial_over_ring
transition-IsIllegal idle q ready e h = cc
transition-IsIllegal connected q ready e h = cc
transition-IsIllegal _ q _ e h = cc

-- The six edges of the table are refused, with the phase and the event returned, and no others.
pub transition-illegal :
    (p : SessionPhase) (ev : PhaseEvent) → (transition p ev ≡ illegal p ev) ↔ IsIllegal p ev
transition-illegal p ev = (transition-IsIllegal p p ev ev, IsIllegal-transition)

-- The phases that a worker goes through under a list of events.
unfoldable pub run : SessionPhase → List PhaseEvent → SessionPhase
run p [] = p
run p (ev ∷ evs) = run (apply_phase p ev) evs

apply_phase-started :
    (p : SessionPhase) (ev : PhaseEvent) → p ≢ starting → apply_phase p ev ≢ starting
unfolding apply_phase transition
apply_phase-started p ev h = ground arith

-- A worker that has left `Starting` never comes back to it, whatever events it sees.
pub run-started : (p : SessionPhase) (evs : List PhaseEvent) → p ≢ starting → run p evs ≢ starting
unfolding run
run-started p [] h = h
run-started p (ev ∷ evs) h = run-started (apply_phase p ev) evs (apply_phase-started p ev h)

-- Between a ring and a dial lies an idle or a connected phase: one event never goes from `Ringing`
-- to `Dialing`, and from no phase but `Idle` and `Connected` does an event begin a dial.
pub dialing_from :
    (p : SessionPhase) (ev : PhaseEvent)
    → p ≢ dialing
    → apply_phase p ev ≡ dialing
    → (ev ≡ begin_dial) × ((p ≡ idle) ⊎ (p ≡ connected))
unfolding apply_phase transition
dialing_from p ev h e = ground arith
