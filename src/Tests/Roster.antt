-- ===== src/Tests/Roster.antt =====
-- Roster messages at concrete entries.
use link_p2p.Prelude.{ℕ, ◌≡◌, refl, [], ◌∷◌, ◌++◌, take, min}
use link_p2p.Outcome.{ok}
use link_p2p.Wire.Slice.{slice_reader}
use link_p2p.Endpoint.Keys.{number_keys}
use link_p2p.Roster.{RosterEntry, snapshot, roster_max_entries, encode_snapshot, read_msg}
use link_p2p.Roster.Messages.{read_msg-encode_snapshot}
use link_p2p.Tests.Stubs.{mesh4, mesh6}

abbrev entry : ℕ → RosterEntry ℕ
entry n = record { vip = mesh4 n; vip6 = mesh6 n; id = n }

read_msg-encode_snapshot_example :
    read_msg number_keys slice_reader
      (encode_snapshot number_keys (entry 1 ∷ entry 2 ∷ []) ++ 7 ∷ [])
    ≡ ok (snapshot (take (min 2 roster_max_entries) (entry 1 ∷ entry 2 ∷ [])), 7 ∷ [])
read_msg-encode_snapshot_example =
    read_msg-encode_snapshot number_keys slice_reader (entry 1 ∷ entry 2 ∷ []) (7 ∷ [])
      (refl, (refl, tt))
