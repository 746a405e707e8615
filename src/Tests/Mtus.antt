-- ===== src/Tests/Mtus.antt =====
-- The MTU of an interface, and a second of oversize packets.
use link_p2p.Prelude.{ℕ, true, some, [], ◌∷◌}
use link_p2p.Tun.Live.{OwnVips}
use link_p2p.Tun.Mtu.{Iface, Window, Sending}
use link_p2p.Tests.Stubs.{mesh4, mesh6}

abbrev at_1280 : Iface
at_1280 = record { mtu = 1280; raise_after = 0 }

abbrev own : OwnVips
own = record { v4 = mesh4 5; v6 = mesh6 5 }

-- A packet of four bytes on a path for two.
abbrev oversize : ℕ → Sending
oversize t = record { now = t; set_ok = true; ceiling = some 2; packet = 0x45 ∷ 0 ∷ 0 ∷ 4 ∷ [] }

abbrev window : Window
window = record { start = 100; count = 19 }
