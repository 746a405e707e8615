-- ===== src/Roster/Dialing.antt =====
-- The tie-break of src/tun_roster.rs.
use link_p2p.Prelude.{◌≡◌, ◌≢◌, false, not, arith}
use link_p2p.Endpoint.{Endpoints}
use link_p2p.Roster.{should_dial}

-- Of two different endpoints exactly one dials the other, and no endpoint dials itself.
pub should_dial_one :
    {NodeId : Type 0} (ids : Endpoints NodeId) (own peer : NodeId)
    → own ≢ peer
    → (should_dial ids own peer ≡ not (should_dial ids peer own))
      × (should_dial ids own own ≡ false)
unfolding should_dial
should_dial_one ids own peer ne =
    (ground (arith, ids.less_other own peer ne, ids.less_total own peer ne), ids.less_self own)
