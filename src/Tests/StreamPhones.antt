-- ===== src/Tests/StreamPhones.antt =====
-- A stream phone with a session and one call that rings.
use link_p2p.Prelude.{ℕ, ◌≡◌, false, none, some, List, [], ◌∷◌, map}
use link_p2p.Net.{Bytes}
use link_p2p.Endpoint.Keys.{number_keys}
use link_p2p.StreamPhone.{Ringing, Plane, new_plane, pending_call, incoming}
use link_p2p.StreamPhone.Control.{StreamCmd, run_command}
use link_p2p.StreamPhone.Queue.{System, turned, Reach}
use link_p2p.StreamPhone.Pending as Pending
use link_p2p.StreamPhone.Pending.{rung, here, next, Reach-IsPublished}
use link_p2p.Tests.Stubs.{number_texts}

abbrev fresh : Plane ℕ
fresh = new_plane 0 [] none none

ringing_2 :
    Pending.Reach number_keys number_texts [] fresh
      (incoming number_keys number_texts [] 10 1700 2 1 fresh)
ringing_2 = next here (rung fresh 10 1700 2 1)

Reach-IsPublished_example :
    (incoming number_keys number_texts [] 10 1700 2 1 fresh).pending
    ≡ map
        (pending_call number_keys number_texts [])
        (incoming number_keys number_texts [] 10 1700 2 1 fresh).calls
Reach-IsPublished_example = Reach-IsPublished number_keys number_texts [] 0 [] none none ringing_2

abbrev call_3 : Ringing ℕ
call_3 = record { peer = 3; conn = 8; since = 10; since_unix_ms = 1700 }

-- The peer 3 rings.
abbrev waiting : Plane ℕ
waiting = record fresh { calls = call_3 ∷ [] }

-- The text of the id 3.
abbrev token_3 : Bytes
token_3 = 259 ∷ []

abbrev asked_3 : StreamCmd
asked_3 = StreamCmd.accept token_3

abbrev both : List StreamCmd
both = asked_3 ∷ StreamCmd.shutdown ∷ []

-- A client accepts the call of 3, another one shuts the daemon down.
abbrev asked_both : System ℕ
asked_both = record { plane = waiting; channel = some both; awaiting = false }

-- The plane takes the first command.
abbrev after_first : System ℕ
after_first =
    turned (run_command number_keys number_texts [] asked_3 waiting) (StreamCmd.shutdown ∷ [])
      asked_both
