-- ===== src/Tests/Phones.antt =====
-- A phone at concrete claims and calls.
use link_p2p.Prelude.{ℕ, ◌≡◌, refl, false, List, some, none, [], ◌∷◌}
use link_p2p.Outcome.{Msg, err, root}
use link_p2p.Table.{get, values, ArcSwap}
use link_p2p.Tun.Phone.{Ringing, ActivePeer, any_vip, phone_claim}
use link_p2p.Tun.Phone.Sessions.{phone_claim-first}
use link_p2p.Tests.Stubs.{numbers, plain_swap, mesh4, mesh6}

abbrev active : ℕ → ActivePeer ℕ
active n = record { id = n; vip = mesh4 n; vip6 = mesh6 n }

abbrev cell : ArcSwap (List (ℕ × ActivePeer ℕ))
cell = plain_swap (List (ℕ × ActivePeer ℕ))

abbrev table : List (ℕ × ActivePeer ℕ)
table = (2, active 2) ∷ []

not_active : get numbers table 3 ≡ none
unfolding get
not_active = refl

free_vips : any_vip (mesh4 3) (mesh6 3) (values table) ≡ false
unfolding any_vip values
free_vips = refl

phone_claim-first_example :
    ((phone_claim numbers cell (active 3) table).0 ≡ err (root Msg.vip_claimed))
    × (get numbers (cell.load (phone_claim numbers cell (active 3) table).1) 3 ≡ some (active 3))
phone_claim-first_example = phone_claim-first numbers cell (active 3) table not_active free_vips

abbrev calls : List (Ringing ℕ)
calls =
    record { peer = 4; since = 0; since_unix_ms = 10 }
    ∷ record { peer = 5; since = 7; since_unix_ms = 17 }
    ∷ record { peer = 5; since = 9; since_unix_ms = 19 }
    ∷ []
