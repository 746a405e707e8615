-- ===== src/PathStats/Dials.antt =====
-- The order of dials that src/path_stats.rs gives.
use link_p2p.Prelude.{
  ℕ, ◌<◌, ◌≡◌, Bool, true, false, Option, none, some, List, [], ◌∷◌, All, if◌then◌else◌,
}
use link_p2p.ShortCode.{Text}
use link_p2p.Table.{get}
use link_p2p.PathStats.{text_keys}

abbrev pub is_known : Option (ℕ × ℕ) → Bool
is_known none = false
is_known (some r) = true

module _ {Item : Type 0} (peer_hex : Item → Text) (rates : List (Text × (ℕ × ℕ))) where
  abbrev pub known : Item → Bool
  known a = is_known (get text_keys rates (peer_hex a))

  -- The items of the peers that have a rate, or that have none, in their order.
  abbrev pub having : Bool → List Item → List Item
  having b [] = []
  having b (a ∷ rest) =
      if known a
      then (if b then a ∷ having b rest else having b rest)
      else (if b then having b rest else a ∷ having b rest)

  abbrev AllKnown : Bool → List Item → Type 0
  AllKnown b = All (λ a. known a ≡ b)

-- Rates of peers that have samples.
abbrev IsRate : Option (ℕ × ℕ) → Type 0
IsRate none = Unit
IsRate (some (d, n)) = 0 < n
