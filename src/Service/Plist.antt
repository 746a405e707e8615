-- ===== src/Service/Plist.antt =====
-- What an XML reader finds in the property list of src/tun_service.rs.
use link_p2p.Prelude.{
  ℕ, zero, suc, ◌<◌, ◌≡◌, refl, ap, ◌∙◌, not, [], ◌∷◌, ◌++◌, ◌==◌, ==_iff, length, drop, Bool-cases,
  arith, inl, inr, if◌then◌else◌,
}
use mathlib.Core.List.{append_assoc}
use link_p2p.ShortCode.{Text}
use link_p2p.Service.{codes, replace, xml_escape, starts_with}

-- The character data up to the next tag, with the three entities resolved; each round reads one
-- character of it.
unfoldable pub character_data : ℕ → Text → Text
character_data zero t = []
character_data (suc fuel) [] = []
character_data (suc fuel) (c ∷ cs) =
    let plain = c ∷ character_data fuel cs in
    let amp = b'&' ∷ character_data fuel (drop 4 cs) in
    let lt = b'<' ∷ character_data fuel (drop 3 cs) in
    let gt = b'>' ∷ character_data fuel (drop 3 cs) in
    if c == b'<'
    then []
    else if not (c == b'&')
    then plain
    else if starts_with cs (codes "amp;")
    then amp
    else if starts_with cs (codes "lt;")
    then lt
    else if starts_with cs (codes "gt;")
    then gt
    else plain

abbrev escaped : ℕ → Text
escaped c =
    if c == b'&'
    then codes "&amp;"
    else if c == b'<'
    then codes "&lt;"
    else if c == b'>'
    then codes "&gt;"
    else c ∷ []

xml_escape-cons : (c : ℕ) (s : Text) → xml_escape (c ∷ s) ≡ escaped c ++ xml_escape s
unfolding xml_escape replace
xml_escape-cons c s = elim (Bool-cases (c == b'&')) [
  | inl a ↦ rw a refl
  | inr a ↦ elim (Bool-cases (c == b'<')) [
    | inl l ↦ rw (a, l) refl
    | inr l ↦ elim (Bool-cases (c == b'>')) [
      | inl g ↦ rw (a, l, g) refl
      | inr g ↦ rw (a, l, g) refl
    ]
  ]
]

character_data-escaped :
    (fuel c : ℕ) (rest : Text)
    → character_data (suc fuel) (escaped c ++ rest) ≡ c ∷ character_data fuel rest
unfolding character_data
character_data-escaped fuel c rest = elim (Bool-cases (c == b'&')) [
  | inl a ↦ let same : c ≡ b'&' = (==_iff c b'&').0 a in rw (same) refl
  | inr a ↦ elim (Bool-cases (c == b'<')) [
    | inl l ↦ let same : c ≡ b'<' = (==_iff c b'<').0 l in rw (same) refl
    | inr l ↦ elim (Bool-cases (c == b'>')) [
      | inl g ↦ let same : c ≡ b'>' = (==_iff c b'>').0 g in rw (same) refl
      | inr g ↦ rw (a, l, g) (rw (a, l) refl)
    ]
  ]
]

character_data-tag :
    (fuel : ℕ) (rest : Text) → character_data (suc fuel) (xml_escape [] ++ (b'<' ∷ rest)) ≡ []
unfolding character_data xml_escape
character_data-tag fuel rest = refl

-- An escaped text, put before a tag, is read back as it was: nothing in it is taken for a tag or an
-- entity.
pub character_data-xml_escape :
    (s rest : Text) (fuel : ℕ)
    → length s < fuel
    → character_data fuel (xml_escape s ++ (b'<' ∷ rest)) ≡ s
character_data-xml_escape s rest zero h = absurd (omega (arith, h))
character_data-xml_escape [] rest (suc fuel) h = character_data-tag fuel rest
character_data-xml_escape (c ∷ s) rest (suc fuel) h =
    ap (λ t. character_data (suc fuel) (t ++ (b'<' ∷ rest))) (xml_escape-cons c s)
    ∙ ap (character_data (suc fuel)) (append_assoc (escaped c) (xml_escape s) (b'<' ∷ rest))
    ∙ character_data-escaped fuel c (xml_escape s ++ (b'<' ∷ rest))
    ∙ ap (λ t. c ∷ t) (character_data-xml_escape s rest fuel (omega (arith, h)))
