-- ===== src/StreamPhone/Ending.antt =====
-- A shutdown that was asked for on the control socket of src/stream_daemon_unix.rs and the end of the
-- phone plane.
use link_p2p.Prelude.{◌≡◌, none, List}
use link_p2p.Endpoint.{Endpoints}
use link_p2p.Contacts.{IdText}
use link_p2p.Contacts.Book.{ContactBook}
use link_p2p.StreamPhone.{Plane}
use link_p2p.StreamPhone.Control.{StreamCmd}
use link_p2p.StreamPhone.Queue.{System, Reach}

module _ {NodeId : Type 0} (ids : Endpoints NodeId) (texts : IdText NodeId) (book : ContactBook)
    (p : Plane NodeId) where
  -- A run of the daemon in which clients are told no more and the plane has ended.
  abbrev pub CanEnd : List StreamCmd → Type 0
  CanEnd told =
      (ran : List StreamCmd) × (s : System NodeId) × Reach ids texts book p told ran s
      × (s.channel ≡ none)
