-- ===== src/Tun/Live.antt =====
-- src/tun/mod.rs and src/tun/phone.rs: the live snapshot that the control plane answers from.
pub mod Reports
use link_p2p.Prelude.{ℕ, ◌-◌, Bool, true, false, Option, none, some, List, [], ◌∷◌, if◌then◌else◌}
use link_p2p.Net.{Bytes, Ipv4Addr, Ipv6Addr, unspecified4, unspecified6}
use link_p2p.TunCtl.{CtlPeer, PendingCall, CtlResponse, status_is, peers_are}
use link_p2p.Tun.Phase.{
  SessionPhase, starting, connected, PhaseEvent, connect, ring, peer_left, as_str, apply_phase,
}

-- `started` is the second at which the worker started.
pub record TunLiveState : Type 0 where
  pub role : Bytes
  pub session : Bytes
  pub started : ℕ
  pub vip : Option Ipv4Addr
  pub vip6 : Option Ipv6Addr
  pub phase : SessionPhase
  pub path_kind : Bytes
  pub peers : List CtlPeer
  pub pending_calls : List PendingCall

-- "unknown"
abbrev unknown : Bytes
unknown = b'u' ∷ b'n' ∷ b'k' ∷ b'n' ∷ b'o' ∷ b'w' ∷ b'n' ∷ []

unfoldable pub new_live : Bytes → Bytes → ℕ → TunLiveState
new_live role session now = record {
  role = role;
  session = session;
  started = now;
  vip = none;
  vip6 = none;
  phase = starting;
  path_kind = unknown;
  peers = [];
  pending_calls = [];
}

pub record OwnVips : Type 0 where
  pub v4 : Ipv4Addr
  pub v6 : Ipv6Addr

unfoldable pub set_vips : TunLiveState → OwnVips → TunLiveState
set_vips s vips = record s { vip = some vips.v4; vip6 = some vips.v6 }

unfoldable pub set_path_kind : TunLiveState → Bytes → TunLiveState
set_path_kind s kind = record s { path_kind = kind }

unfoldable pub set_peers : TunLiveState → List CtlPeer → TunLiveState
set_peers s ps = record s { peers = ps }

unfoldable pub set_pending_calls : TunLiveState → List PendingCall → TunLiveState
set_pending_calls s calls = record s { pending_calls = calls }

unfoldable pub apply_live_phase : TunLiveState → PhaseEvent → TunLiveState
apply_live_phase s ev = record s { phase = apply_phase s.phase ev }

abbrev pub is_connected : SessionPhase → Bool
is_connected connected = true
is_connected _ = false

abbrev or_else {ℓ} : {A : Type ℓ} → Option A → A → A
or_else (some a) d = a
or_else none d = d

unfoldable pub status_response : TunLiveState → ℕ → CtlResponse
status_response s now = status_is (record {
  role = s.role;
  uptime_secs = now - s.started;
  vip = or_else s.vip unspecified4;
  vip6 = or_else s.vip6 unspecified6;
  path_kind = if is_connected s.phase then s.path_kind else as_str s.phase;
  session = s.session;
  pending_calls = s.pending_calls;
})

unfoldable pub peers_response : TunLiveState → CtlResponse
peers_response s = peers_are s.peers

abbrev is_empty {ℓ} : {A : Type ℓ} → List A → Bool
is_empty [] = true
is_empty (_ ∷ _) = false

-- `phone_reconcile_phase_after_ring`, over the active peers and the ringing list.
unfoldable pub phone_reconcile {ℓ κ} :
    {P : Type ℓ} {R : Type κ} → TunLiveState → List P → List R → TunLiveState
unfolding apply_live_phase
phone_reconcile s peers ringing =
    if is_empty peers
    then (if is_empty ringing then apply_live_phase s peer_left else apply_live_phase s ring)
    else apply_live_phase s connect
