-- ===== src/I18n/Language.antt =====
-- The choice of the language in src/i18n.rs. The variables LANGUAGE, LC_ALL, LC_MESSAGES and LANG, the
-- languages of the system and whether a directory has a catalog are arguments.
use link_p2p.Prelude.{
  ℕ, ◌+◌, ◌≡◌, refl, sym, ap, Bool, true, ◌&&◌, Option, none, some, List, [], ◌∷◌, ◌++◌, leb, ◌==◌,
  All, bytes_eq, Bool-cases, Option-cases, arith, inl, inr, if◌then◌else◌,
}
use link_p2p.ShortCode.{Text}
use link_p2p.Contacts.{trim, is_nil}

-- The catalogs, in place of their directories' names.
pub data Lang : Type 0 where
  zh_cn ja_jp es_es : Lang

-- `raw.split('.').next()`
unfoldable pub base_of : Text → Text
base_of [] = []
base_of (c ∷ cs) = let rest = base_of cs in if c == b'.' then [] else c ∷ rest

abbrev pub normal_char : ℕ → ℕ
normal_char c = if c == b'-' then b'_' else if leb b'A' c && leb c b'Z' then c + 32 else c

unfoldable pub normal : Text → Text
normal [] = []
normal (c ∷ cs) = normal_char c ∷ normal cs

abbrev pub two : ℕ → ℕ → Text
two a b = a ∷ b ∷ []

abbrev pub five : ℕ → ℕ → ℕ → ℕ → Text
five a b c d = a ∷ b ∷ b'_' ∷ c ∷ d ∷ []

-- The names `c`, `posix` and every other one that is not listed have no catalog.
unfoldable pub normalize_lang : Text → Option Lang
unfolding base_of normal
normalize_lang raw =
    let norm = normal (base_of raw) in
    if bytes_eq norm (two b'z' b'h')
    then some zh_cn
    else if bytes_eq norm (two b'j' b'a')
    then some ja_jp
    else if bytes_eq norm (two b'e' b's')
    then some es_es
    else if bytes_eq norm (five b'z' b'h' b'c' b'n')
    then some zh_cn
    else if bytes_eq norm (five b'j' b'a' b'j' b'p')
    then some ja_jp
    else if bytes_eq norm (five b'e' b's' b'e' b's')
    then some es_es
    else none

-- The first variable that is set to more than the empty text.
unfoldable pub env_lang : List (Option Text) → Option Text
env_lang [] = none
env_lang (none ∷ vars) = env_lang vars
env_lang (some v ∷ vars) = if is_nil v then env_lang vars else some v

abbrev pub cons_part : ℕ → List Text → List Text
cons_part c [] = (c ∷ []) ∷ []
cons_part c (p ∷ ps) = (c ∷ p) ∷ ps

-- `split(':')`
unfoldable pub split_colons : Text → List Text
split_colons [] = [] ∷ []
split_colons (c ∷ cs) =
    let rest = split_colons cs in if c == b':' then [] ∷ rest else cons_part c rest

unfoldable pub trimmed : List Text → List Text
unfolding trim
trimmed [] = []
trimmed (p ∷ ps) = let rest = trimmed ps in if is_nil (trim p) then rest else trim p ∷ rest

unfoldable pub language_prefs : List (Option Text) → List Text → List Text
unfolding env_lang split_colons trimmed
language_prefs vars locales = elim (env_lang vars) [
  | some raw ↦ trimmed (split_colons raw)
  | none ↦ locales
]

module _ (has_catalog : Lang → Bool) where
  abbrev pub usable : Text → Option Lang
  usable part = elim (normalize_lang part) [
    | none ↦ none
    | some dir ↦ if has_catalog dir then some dir else none
  ]

  unfoldable pub first_usable : List Text → Option Lang
  first_usable [] = none
  first_usable (part ∷ parts) = elim (usable part) [
    | some dir ↦ some dir
    | none ↦ first_usable parts
  ]

  unfoldable pub resolve_lang : List (Option Text) → List Text → Option Lang
  unfolding first_usable language_prefs
  resolve_lang vars locales = first_usable (language_prefs vars locales)

  -- A language is chosen as the first of the preferences that has a catalog, and none is chosen only
  -- if no preference has one.
  abbrev pub IsFirst : List Text → Option Lang → Type 0
  IsFirst parts none = All (λ part. usable part ≡ none) parts
  IsFirst parts (some dir) =
      (before : List Text) × (part : Text) × (after : List Text) × (parts ≡ before ++ part ∷ after)
      × All (λ p. usable p ≡ none) before
      × (normalize_lang part ≡ some dir)
      × (has_catalog dir ≡ true)

  usable-some :
      (part : Text) (dir : Lang)
      → usable part ≡ some dir
      → (normalize_lang part ≡ some dir) × (has_catalog dir ≡ true)
  usable-some part dir h = elim (Option-cases (normalize_lang part)) [
    | inl e ↦ absurd (ground (arith, e, h))
    | inr (d, e) ↦ elim (Bool-cases (has_catalog d)) [
      | inl t ↦ let same : d ≡ dir = ground (arith, e, t, h) in rw (sym same) (e, t)
      | inr t ↦ absurd (ground (arith, e, t, h))
    ]
  ]

  IsFirst-cons :
      (part : Text) (parts : List Text) (o : Option Lang)
      → usable part ≡ none
      → IsFirst parts o
      → IsFirst (part ∷ parts) o
  IsFirst-cons part parts none e h = (e, h)
  IsFirst-cons part parts (some dir) e (before, p, after, split, others, named, present) =
      (part ∷ before, p, after, ap (λ t. part ∷ t) split, (e, others), named, present)

  first_usable-IsFirst : (parts : List Text) → IsFirst parts (first_usable parts)
  unfolding first_usable
  first_usable-IsFirst [] = tt
  first_usable-IsFirst (part ∷ parts) = elim (Option-cases (usable part)) [
    | inl e ↦
        rw (first_usable, e)
          (IsFirst-cons part parts (first_usable parts) e (first_usable-IsFirst parts))
    | inr (dir, e) ↦
        let (named, present) = usable-some part dir e in
        rw (first_usable, e) ([], part, parts, refl, tt, named, present)
  ]

  -- The language is that of the first preference with a catalog: of the first variable that is set, or
  -- of the system if none is. There is none only if no preference has a catalog.
  pub resolve_lang-IsFirst :
      (vars : List (Option Text)) (locales : List Text)
      → IsFirst (language_prefs vars locales) (resolve_lang vars locales)
  unfolding resolve_lang
  resolve_lang-IsFirst vars locales = first_usable-IsFirst (language_prefs vars locales)
