-- ===== src/StreamPhone/Control.antt =====
-- The control socket of src/stream_daemon_unix.rs and the channel of commands between it and the phone
-- plane. The channel is `none` once the plane has ended; a request is `none` as long as its send waits
-- for room.
use link_p2p.Prelude.{ℕ, Option, none, some, List, [], ◌∷◌, ◌++◌, ltb, length, if◌then◌else◌}
use link_p2p.Net.{Bytes}
use link_p2p.Outcome.{Result, ok, err, exit_other}
use link_p2p.Endpoint.{Endpoints}
use link_p2p.Contacts.{IdText}
use link_p2p.Contacts.Book.{ContactBook}
use link_p2p.Wire.{Reader}
use link_p2p.TunCtl.{Json}
use link_p2p.StreamCtl.{CallRequest, CtlRequest, CtlResponse, read_request, write_response}
use link_p2p.StreamPhone.{Plane, plane_status, accept_call, reject_call, dial_begins}

-- `CallCmd`
pub data StreamCmd : Type 0 where
  dial : CallRequest → StreamCmd
  accept reject : Bytes → StreamCmd
  shutdown : StreamCmd

abbrev pub Channel : Type 0
Channel = Option (List StreamCmd)

abbrev pub channel_capacity : ℕ
channel_capacity = 32

-- "call daemon is busy"
abbrev busy : Bytes
busy =
    b'c' ∷ b'a' ∷ b'l' ∷ b'l' ∷ b' ' ∷ b'd' ∷ b'a' ∷ b'e' ∷ b'm' ∷ b'o' ∷ b'n' ∷ b' ' ∷ b'i' ∷ b's'
    ∷ b' ' ∷ b'b' ∷ b'u' ∷ b's' ∷ b'y' ∷ []

-- `let _ = cmd_tx.send(cmd).await`, which waits for room and forgets that nobody receives.
unfoldable pub send : StreamCmd → Channel → Option Channel
send cmd none = some none
send cmd (some q) = if ltb (length q) channel_capacity then some (some (q ++ cmd ∷ [])) else none

-- `cmd_tx.try_send`
unfoldable pub try_send : StreamCmd → Channel → CtlResponse × Channel
try_send cmd none = (CtlResponse.error exit_other busy, none)
try_send cmd (some q) =
    if ltb (length q) channel_capacity
    then (CtlResponse.done, some (q ++ cmd ∷ []))
    else (CtlResponse.error exit_other busy, some q)

abbrev pub answered_once : Option Channel → Option (CtlResponse × Channel)
answered_once none = none
answered_once (some q) = some (CtlResponse.done, q)

-- The answer to a request, and the channel afterwards.
unfoldable pub respond :
    {NodeId : Type 0} → ℕ → Plane NodeId → Channel → CtlRequest → Option (CtlResponse × Channel)
unfolding plane_status send try_send
respond now p q CtlRequest.status = some (plane_status now p, q)
respond now p q CtlRequest.peers = some (CtlResponse.peers_are p.peers, q)
respond now p q CtlRequest.shutdown = answered_once (send StreamCmd.shutdown q)
respond now p q (CtlRequest.call c) = some (try_send (StreamCmd.dial c) q)
respond now p q (CtlRequest.accept peer) = answered_once (send (StreamCmd.accept peer) q)
respond now p q (CtlRequest.reject peer) = answered_once (send (StreamCmd.reject peer) q)

module _ (r : Reader) (requests : Json CtlRequest) (responses : Json CtlResponse) where
  -- What is written to a client that sent `input`.
  unfoldable pub handle_one_ctl :
      {NodeId : Type 0} → ℕ → Plane NodeId → Channel → Bytes → Option (Result Bytes × Channel)
  unfolding respond
  handle_one_ctl now p q input = elim (read_request r requests input) [
    | err e ↦ some (err e, q)
    | ok (req, rest) ↦ elim (respond now p q req) [
      | none ↦ none
      | some (resp, q') ↦ some (write_response responses resp, q')
    ]
  ]

-- What the loop of the plane does with a command: it goes on, it connects to the peer of a dial, it
-- ends at a shutdown, or it panics in the parser of peer tokens.
pub data Turn (NodeId : Type 0) : Type 0 where
  goes_on connects : Plane NodeId → Turn NodeId
  ends panics : Turn NodeId

abbrev pub dial_turn : {NodeId : Type 0} → Plane NodeId → Option (Plane NodeId) → Turn NodeId
dial_turn p none = goes_on p
dial_turn p (some p') = connects p'

abbrev pub call_turn : {NodeId : Type 0} → Option (Plane NodeId) → Turn NodeId
call_turn none = panics
call_turn (some p) = goes_on p

module _ {NodeId : Type 0} (ids : Endpoints NodeId) (texts : IdText NodeId)
    (book : ContactBook) where
  unfoldable pub run_command : StreamCmd → Plane NodeId → Turn NodeId
  unfolding dial_begins
  run_command (StreamCmd.dial c) p = dial_turn p (dial_begins p)
  run_command (StreamCmd.accept peer) p = call_turn (accept_call ids texts book peer p)
  run_command (StreamCmd.reject peer) p = call_turn (reject_call ids texts book peer p)
  run_command StreamCmd.shutdown p = ends
