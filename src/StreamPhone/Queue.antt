-- ===== src/StreamPhone/Queue.antt =====
-- The daemon of src/stream_daemon_unix.rs as a whole: clients of the control socket, the channel of
-- commands and the phone plane, in any order of what they do.
use link_p2p.Prelude.{
  ℕ, ◌≤◌, ◌≡◌, Bool, true, false, Option, none, some, List, [], ◌∷◌, ◌++◌, length,
}
use link_p2p.Endpoint.{Endpoints}
use link_p2p.Contacts.{IdText}
use link_p2p.Contacts.Book.{ContactBook}
use link_p2p.StreamCtl.{CtlRequest, CtlResponse}
use link_p2p.StreamPhone.{Plane, incoming, session_ended, dial_ends, tick}
use link_p2p.StreamPhone.Control.{
  StreamCmd, Channel, channel_capacity, respond, Turn, goes_on, connects, ends, panics, run_command,
}

-- `awaiting` is true while the loop of the plane waits for the connection of a dial.
pub record System (NodeId : Type 0) : Type 0 where
  pub plane : Plane NodeId
  pub channel : Channel
  pub awaiting : Bool

-- What a request asks of the plane.
abbrev pub command_of : CtlRequest → List StreamCmd
command_of CtlRequest.status = []
command_of CtlRequest.peers = []
command_of CtlRequest.shutdown = StreamCmd.shutdown ∷ []
command_of (CtlRequest.call c) = StreamCmd.dial c ∷ []
command_of (CtlRequest.accept peer) = StreamCmd.accept peer ∷ []
command_of (CtlRequest.reject peer) = StreamCmd.reject peer ∷ []

-- What a client was told is done.
abbrev pub answered : CtlRequest → CtlResponse → List StreamCmd
answered req CtlResponse.done = command_of req
answered req _ = []

abbrev pub turned : {NodeId : Type 0} → Turn NodeId → List StreamCmd → System NodeId → System NodeId
turned (goes_on p) q s = record { plane = p; channel = some q; awaiting = false }
turned (connects p) q s = record { plane = p; channel = some q; awaiting = true }
turned ends q s = record { plane = s.plane; channel = none; awaiting = false }
turned panics q s = record { plane = s.plane; channel = none; awaiting = false }

module _ {NodeId : Type 0} (ids : Endpoints NodeId) (texts : IdText NodeId)
    (book : ContactBook) where
  -- What can happen to the daemon, with the commands that clients were told are done and those that the
  -- plane has taken, in their order.
  pub data Reach (p : Plane NodeId) : List StreamCmd → List StreamCmd → System NodeId → Type 0 where
    began : Reach p [] [] (record { plane = p; channel = some []; awaiting = false })
    asked :
        {told ran : List StreamCmd} {s : System NodeId} (now : ℕ) (req : CtlRequest)
        (resp : CtlResponse) (c : Channel)
        → Reach p told ran s
        → respond now s.plane s.channel req ≡ some (resp, c)
        → Reach p (told ++ answered req resp) ran (record s { channel = c })
    taken :
        {told ran : List StreamCmd} {s : System NodeId} (cmd : StreamCmd) (q : List StreamCmd)
        → Reach p told ran s
        → s.channel ≡ some (cmd ∷ q)
        → s.awaiting ≡ false
        → Reach p told (ran ++ cmd ∷ []) (turned (run_command ids texts book cmd s.plane) q s)
    dialed :
        {told ran : List StreamCmd} {s : System NodeId} (answer : Option (NodeId × ℕ))
        → Reach p told ran s
        → s.awaiting ≡ true
        → Reach p told ran
            (record s { plane = dial_ends ids texts book answer s.plane; awaiting = false })
    rung :
        {told ran : List StreamCmd} {s : System NodeId} (now now_unix_ms : ℕ) (peer : NodeId)
        (conn : ℕ)
        → Reach p told ran s
        → Reach p told ran
            (record s { plane = incoming ids texts book now now_unix_ms peer conn s.plane })
    ended :
        {told ran : List StreamCmd} {s : System NodeId}
        → Reach p told ran s
        → Reach p told ran (record s { plane = session_ended s.plane })
    ticked :
        {told ran : List StreamCmd} {s : System NodeId} (now : ℕ)
        → Reach p told ran s
        → s.awaiting ≡ false
        → Reach p told ran (record s { plane = tick ids texts book now s.plane })

-- While the plane runs, what clients were told is what it has taken and then what waits in the channel;
-- once it has ended, what it has taken is the first of what they were told.
abbrev pub IsServed : List StreamCmd → List StreamCmd → Channel → Type 0
IsServed told ran (some q) = (told ≡ ran ++ q) × (length q ≤ channel_capacity)
IsServed told ran none = (lost : List StreamCmd) × (told ≡ ran ++ lost)

-- `IsServed` after the answer to a request.
abbrev AfterAnswer :
    List StreamCmd → List StreamCmd → CtlRequest → Option (CtlResponse × Channel) → Type 0
AfterAnswer told ran req none = Unit {0}
AfterAnswer told ran req (some (resp, c)) = IsServed (told ++ answered req resp) ran c
