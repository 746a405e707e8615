-- ===== src/Tun/Live/Reports.antt =====
-- What Status says of a phone daemon, in src/tun/mod.rs and src/tun/phone.rs.
use link_p2p.Prelude.{ℕ, ◌≡◌, ◌≢◌, List, [], ◌∷◌, arith}
use link_p2p.Net.{Bytes}
use link_p2p.TunCtl.{CtlResponse, status_is}
use link_p2p.Tun.Phase.{
  SessionPhase, starting, idle, ringing, connected, as_str, apply_phase, transition,
}
use link_p2p.Tun.Live.{TunLiveState, status_response, phone_reconcile}

-- The phase that a phone's tables stand for: connected while a peer is active, else ringing while a
-- call waits, else idle.
abbrev pub settled {ℓ κ} : {P : Type ℓ} {R : Type κ} → List P → List R → SessionPhase
settled (p ∷ ps) rings = connected
settled [] (r ∷ rs) = ringing
settled [] [] = idle

-- Once the worker has started, reconciling the phase after a reject, a ring timeout, a failed dial
-- or a lost peer gives exactly the phase that the tables stand for, whatever it was before, and
-- changes nothing else of the snapshot.
pub phone_reconcile-settled {ℓ κ} :
    {P : Type ℓ} {R : Type κ} (s : TunLiveState) (peers : List P) (rings : List R)
    → s.phase ≢ starting
    → phone_reconcile s peers rings ≡ record s { phase = settled peers rings }
unfolding phone_reconcile apply_phase transition
phone_reconcile-settled s [] [] h = ground arith
phone_reconcile-settled s [] (r ∷ rs) h = ground arith
phone_reconcile-settled s (p ∷ ps) rings h = ground arith

abbrev pub path_kind_of : CtlResponse → Bytes
path_kind_of (status_is report) = report.path_kind
path_kind_of _ = []

-- After such a reconciliation with no active peer, Status shows the token of the phase and not the
-- path of a session that has ended.
pub status_response-reconciled {κ} :
    {R : Type κ} (s : TunLiveState) (rings : List R) (now : ℕ)
    → s.phase ≢ starting
    → path_kind_of (status_response (phone_reconcile {P = ℕ} s [] rings) now)
      ≡ as_str (settled {P = ℕ} [] rings)
unfolding status_response
status_response-reconciled s [] now h = rw (phone_reconcile-settled {P = ℕ} s [] [] h)
status_response-reconciled s (r ∷ rs) now h = rw (phone_reconcile-settled {P = ℕ} s [] (r ∷ rs) h)
