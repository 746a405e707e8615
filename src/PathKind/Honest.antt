-- ===== src/PathKind/Honest.antt =====
-- What a path kind of src/path_kind.rs says of the open paths.
use link_p2p.Prelude.{
  ◌≡◌, refl, Bool, true, false, ◌||◌, none, some, List, [], ◌∷◌, arith, if◌then◌else◌,
}
use link_p2p.PathKind.{
  PathInfo, PathKind, direct, relay, relay_with_direct_candidate, unknown, Seen, scan, classify,
  path_kind,
}

abbrev pub any_ip : List PathInfo → Bool
any_ip [] = false
any_ip (p ∷ ps) = p.is_ip || any_ip ps

-- An IP path is open exactly for the kinds that name one.
abbrev pub names_ip : PathKind → Bool
names_ip direct = true
names_ip relay_with_direct_candidate = true
names_ip relay = false
names_ip unknown = false

-- A selected IP path was counted.
abbrev is_sound : Seen → Bool
is_sound seen = elim seen.selected_is_ip [
  | some true ↦ seen.has_ip
  | some false ↦ true
  | none ↦ true
]

classify-names_ip : (seen : Seen) → is_sound seen ≡ true → names_ip (classify seen) ≡ seen.has_ip
unfolding classify
classify-names_ip seen h = ground (arith, h)

abbrev see : PathInfo → Seen → Seen
see p seen = record {
  has_ip = seen.has_ip || p.is_ip;
  has_relay = seen.has_relay || p.is_relay;
  selected_is_ip = if p.is_selected then some p.is_ip else seen.selected_is_ip;
}

see-is_sound : (p : PathInfo) (seen : Seen) → is_sound seen ≡ true → is_sound (see p seen) ≡ true
see-is_sound p seen h = ground (arith, h)

or_assoc : (a b c : Bool) → ((a || b) || c) ≡ (a || (b || c))
or_assoc a b c = ground arith

scan-names_ip :
    (ps : List PathInfo) (seen : Seen)
    → is_sound seen ≡ true
    → names_ip (classify (scan ps seen)) ≡ (seen.has_ip || any_ip ps)
unfolding scan
scan-names_ip [] seen h = ground (arith, classify-names_ip seen h)
scan-names_ip (p ∷ ps) seen h = ground (
  arith,
  scan-names_ip ps (see p seen) (see-is_sound p seen h),
  or_assoc seen.has_ip p.is_ip (any_ip ps),
)

-- A connection is reported as direct, or as relayed with a direct candidate, exactly when one of its
-- open paths is an IP path; so a relay-only connection is never called direct.
pub path_kind-names_ip : (ps : List PathInfo) → names_ip (path_kind ps) ≡ any_ip ps
unfolding path_kind
path_kind-names_ip ps =
    scan-names_ip ps (record { has_ip = false; has_relay = false; selected_is_ip = none }) refl
