-- ===== src/PathKind.antt =====
-- src/path_kind.rs: whether a connection runs over a direct path or a relay. A path is what iroh says
-- of it.
pub mod Honest
use link_p2p.Prelude.{
  Bool, true, false, ◌&&◌, ◌||◌, not, Option, none, some, List, [], ◌∷◌, if◌then◌else◌,
}

pub record PathInfo : Type 0 where
  pub is_ip : Bool
  pub is_relay : Bool
  pub is_selected : Bool

pub data PathKind : Type 0 where
  direct relay relay_with_direct_candidate unknown : PathKind

-- `has_ip`, `has_relay` and `selected_is_ip` of the loop.
pub record Seen : Type 0 where
  pub has_ip : Bool
  pub has_relay : Bool
  pub selected_is_ip : Option Bool

unfoldable pub scan : List PathInfo → Seen → Seen
scan [] seen = seen
scan (p ∷ ps) seen = scan ps (record {
  has_ip = seen.has_ip || p.is_ip;
  has_relay = seen.has_relay || p.is_relay;
  selected_is_ip = if p.is_selected then some p.is_ip else seen.selected_is_ip;
})

unfoldable pub classify : Seen → PathKind
classify seen = elim seen.selected_is_ip [
  | some true ↦ direct
  | some false ↦ if seen.has_ip then relay_with_direct_candidate else relay
  | none ↦
      if seen.has_ip && not seen.has_relay
      then direct
      else if seen.has_relay && not seen.has_ip
      then relay
      else if seen.has_ip && seen.has_relay
      then relay_with_direct_candidate
      else unknown
]

unfoldable pub path_kind : List PathInfo → PathKind
unfolding scan classify
path_kind paths =
    classify (scan paths (record { has_ip = false; has_relay = false; selected_is_ip = none }))
