-- ===== src/Tun/Phase.antt =====
-- src/tun/mod.rs: the phase of a TUN session and the events that drive it.
pub mod Edges
use link_p2p.Prelude.{Bool, true, false, [], ◌∷◌, if◌then◌else◌}
use link_p2p.Net.{Bytes}

pub data SessionPhase : Type 0 where
  starting idle dialing ringing connected : SessionPhase

pub data PhaseEvent : Type 0 where
  ready begin_dial ring connect peer_left reset : PhaseEvent

-- `Ok(next)`, or `Err((current, event))`.
pub data Transition : Type 0 where
  next : SessionPhase → Transition
  illegal : SessionPhase → PhaseEvent → Transition

-- `p != P::Starting`
abbrev pub is_started : SessionPhase → Bool
is_started starting = false
is_started _ = true

unfoldable pub transition : SessionPhase → PhaseEvent → Transition
transition starting ready = next idle
transition starting connect = next connected
transition idle begin_dial = next dialing
transition idle ring = next ringing
transition idle connect = next connected
transition dialing connect = next connected
transition dialing peer_left = next idle
transition dialing reset = next idle
transition dialing ring = next ringing
transition ringing connect = next connected
transition ringing peer_left = next idle
transition ringing reset = next idle
transition ringing ring = next ringing
transition connected peer_left = next idle
transition connected reset = next idle
transition connected begin_dial = next dialing
transition connected ring = next ringing
transition p ready = if is_started p then next p else illegal p ready
transition connected connect = next connected
transition idle reset = next idle
transition idle peer_left = next idle
transition p ev = illegal p ev

unfoldable pub as_str : SessionPhase → Bytes
as_str starting = b's' ∷ b't' ∷ b'a' ∷ b'r' ∷ b't' ∷ b'i' ∷ b'n' ∷ b'g' ∷ []
as_str idle = b'i' ∷ b'd' ∷ b'l' ∷ b'e' ∷ []
as_str dialing = b'd' ∷ b'i' ∷ b'a' ∷ b'l' ∷ b'i' ∷ b'n' ∷ b'g' ∷ []
as_str ringing = b'r' ∷ b'i' ∷ b'n' ∷ b'g' ∷ b'i' ∷ b'n' ∷ b'g' ∷ []
as_str connected = b'c' ∷ b'o' ∷ b'n' ∷ b'n' ∷ b'e' ∷ b'c' ∷ b't' ∷ b'e' ∷ b'd' ∷ []

-- `apply_phase`: an illegal edge is logged and leaves the phase alone.
unfoldable pub apply_phase : SessionPhase → PhaseEvent → SessionPhase
apply_phase p ev = elim (transition p ev) [ next q ↦ q | illegal q e ↦ p ]
