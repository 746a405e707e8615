-- ===== src/Tests/Relays.antt =====
-- A cache of relays that was filled a minute before it is read.
use link_p2p.Prelude.{ℕ, Option, ◌≡◌, refl, List, some, none, [], ◌∷◌}
use link_p2p.Table.{get, remove}
use link_p2p.Relays.{order_from_fresh_cache, record_probe_results}
use link_p2p.Tests.Stubs.{numbers}

-- A slow relay, one that failed and a fast one.
abbrev probes : List (ℕ × Option ℕ)
probes = (1, some 200) ∷ (2, none) ∷ (3, some 10) ∷ []

fast_first :
    order_from_fresh_cache numbers
      (record_probe_results numbers probes 5000 [])
      5060
      (1 ∷ 2 ∷ 3 ∷ [])
    ≡ some (3 ∷ 1 ∷ 2 ∷ [])
unfolding order_from_fresh_cache record_probe_results get remove
fast_first = refl
