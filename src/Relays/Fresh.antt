-- ===== src/Relays/Fresh.antt =====
-- What was just recorded is fresh.
use link_p2p.Prelude.{ℕ, ◌≡◌, List, [], ◌∷◌, false, Bool, Option, some, ◌||◌}
use link_p2p.Table.{Keys, get}
use link_p2p.Relays.{Entry, Scored, fresh}

module _ {Url : Type 0} (urls : Keys Url) where
  -- A url among the results.
  abbrev pub probed : List (Url × Option ℕ) → Url → Bool
  probed [] u = false
  probed ((a, d) ∷ results) u = urls.same a u || probed results u

  -- The time that the entry of a url has.
  abbrev pub IsStamped : ℕ → List (Url × Entry) → Url → Type 0
  IsStamped now cache u = (e : Entry) × (get urls cache u ≡ some e) × (e.updated_unix ≡ now)

  -- The rank of a place is the one that the cache has for its url.
  abbrev pub IsRanked : List (Url × Entry) → ℕ → Scored Url → Type 0
  IsRanked cache now s = fresh urls cache now s.url ≡ some s.rank
