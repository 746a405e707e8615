-- ===== src/I18n/Template.antt =====
-- What `tr_fmt_impl` of src/i18n.rs makes of a template: the template falls apart into literal
-- characters and tokens, and only the tokens depend on the arguments.
use link_p2p.Prelude.{
  ℕ, zero, suc, ◌^◌, ◌-◌, ◌<◌, ◌≡◌, ◌⊎◌, refl, sym, ap, ◌∙◌, true, false, none, some, List, [], ◌∷◌,
  ◌++◌, ◌==◌, length, length-append, All, Bool-cases, Option-cases, ==_iff, arith, inl, inr,
}
use mathlib.Core.List.{append_assoc}
use link_p2p.ShortCode.{Text}
use link_p2p.Decimal.{is_digit, parse_decimal}
use link_p2p.I18n.{closed, digits_of, after_digits, token_at, token_text, fill, tr_fmt_impl}

pub data Piece : Type 0 where
  lit : ℕ → Piece
  token : Text → Piece

abbrev pub print : List Piece → Text
print [] = []
print (lit c ∷ ps) = c ∷ print ps
print (token ds ∷ ps) = b'{' ∷ (ds ++ b'}' ∷ print ps)

abbrev pub filled : List Text → List Piece → Text
filled args [] = []
filled args (lit c ∷ ps) = c ∷ filled args ps
filled args (token ds ∷ ps) = token_text args ds ++ filled args ps

digits_of-append : (cs : Text) → digits_of cs ++ after_digits cs ≡ cs
unfolding digits_of after_digits
digits_of-append [] = refl
digits_of-append (c ∷ cs) = elim (Bool-cases (is_digit c)) [
  | inl t ↦ rw (t, digits_of-append cs) refl
  | inr t ↦ rw t refl
]

digits_of-IsDigit : (cs : Text) → All (λ c. is_digit c ≡ true) (digits_of cs)
unfolding digits_of
digits_of-IsDigit [] = tt
digits_of-IsDigit (c ∷ cs) = elim (Bool-cases (is_digit c)) [
  | inl t ↦ rw t (t, digits_of-IsDigit cs)
  | inr t ↦ rw t tt
]

-- Digits between braces, at least one of them.
abbrev pub IsPiece : Piece → Type 0
IsPiece (lit c) = Unit
IsPiece (token ds) = (0 < length ds) × All (λ c. is_digit c ≡ true) ds

closed_some :
    (ds more ds' rest : Text)
    → closed ds more ≡ some (ds', rest)
    → (0 < length ds) × (ds' ≡ ds) × (more ≡ b'}' ∷ rest)
closed_some [] more ds' rest h = absurd (ground (arith, h))
closed_some (d ∷ ds) [] ds' rest h = absurd (ground (arith, h))
closed_some (d ∷ ds) (c ∷ more) ds' rest h = ground (arith, h)

token_at-some :
    (cs ds rest : Text)
    → token_at cs ≡ some (ds, rest)
    → (cs ≡ ds ++ b'}' ∷ rest) × IsPiece (token ds)
unfolding token_at
token_at-some cs ds rest h =
    let (nonempty, same, behind) = closed_some (digits_of cs) (after_digits cs) ds rest h in
    rw same (
      sym (digits_of-append cs) ∙ ap (λ t. digits_of cs ++ t) behind,
      (nonempty, digits_of-IsDigit cs),
    )

-- A template is made of `ps` whatever its arguments are.
abbrev pub IsMadeOf : ℕ → Text → List Piece → Type 0
IsMadeOf fuel t ps =
    (print ps ≡ t) × All IsPiece ps × ((args : List Text) → fill fuel args t ≡ filled args ps)

fill-literal :
    (fuel c : ℕ) (after : Text) (args : List Text)
    → ((c == b'{') ≡ false) ⊎ (token_at after ≡ none)
    → fill (suc fuel) args (c ∷ after) ≡ c ∷ fill fuel args after
unfolding fill
fill-literal fuel c after args (inl other) = rw other refl
fill-literal fuel c after args (inr unclosed) = elim (Bool-cases (c == b'{')) [
  | inl brace ↦ rw (brace, unclosed) refl
  | inr other ↦ rw other refl
]

IsMadeOf-literal :
    (fuel c : ℕ) (after : Text) (ps : List Piece)
    → ((c == b'{') ≡ false) ⊎ (token_at after ≡ none)
    → IsMadeOf fuel after ps
    → IsMadeOf (suc fuel) (c ∷ after) (lit c ∷ ps)
IsMadeOf-literal fuel c after ps plain (same, pieces, result) = (
  ap (λ t. c ∷ t) same,
  (tt, pieces),
  λ args. fill-literal fuel c after args plain ∙ ap (λ t. c ∷ t) (result args),
)

IsMadeOf-token :
    (fuel : ℕ) (after ds rest : Text) (ps : List Piece)
    → token_at after ≡ some (ds, rest)
    → IsMadeOf fuel rest ps
    → IsMadeOf (suc fuel) (b'{' ∷ after) (token ds ∷ ps)
unfolding fill
IsMadeOf-token fuel after ds rest ps found (same, pieces, result) =
    let (split, piece) = token_at-some after ds rest found in
    (
      rw (same, split) refl,
      (piece, pieces),
      λ args. rw found (ap (λ t. token_text args ds ++ t) (result args)),
    )

IsMadeOf-token_at :
    (fuel c : ℕ) (after ds rest : Text) (ps : List Piece)
    → c ≡ b'{'
    → token_at after ≡ some (ds, rest)
    → IsMadeOf fuel rest ps
    → IsMadeOf (suc fuel) (c ∷ after) (token ds ∷ ps)
IsMadeOf-token_at fuel c after ds rest ps brace found made =
    rw brace (IsMadeOf-token fuel after ds rest ps found made)

fill-pieces : (fuel : ℕ) (t : Text) → length t < fuel → (ps : List Piece) × IsMadeOf fuel t ps
unfolding fill
fill-pieces zero t h = absurd (omega (arith, h))
fill-pieces (suc fuel) [] h = ([], (refl, tt, λ args. refl))
fill-pieces (suc fuel) (c ∷ after) h = elim (Bool-cases (c == b'{')) [
  | inr other ↦
      let (ps, made) = fill-pieces fuel after (omega (arith, h)) in
      (lit c ∷ ps, IsMadeOf-literal fuel c after ps (inl other) made)
  | inl brace ↦ elim (Option-cases (token_at after)) [
    | inl unclosed ↦
        let (ps, made) = fill-pieces fuel after (omega (arith, h)) in
        (lit c ∷ ps, IsMadeOf-literal fuel c after ps (inr unclosed) made)
    | inr ((ds, rest), found) ↦
        let (split, _) = token_at-some after ds rest found in
        let shorter : length rest < fuel =
          omega (arith, ap length split, length-append ds (b'}' ∷ rest), h) in
        let (ps, made) = fill-pieces fuel rest shorter in
        let same : c ≡ b'{' = (==_iff c b'{').0 brace in
        (token ds ∷ ps, IsMadeOf-token_at fuel c after ds rest ps same found made)
  ]
]

pub tr_fmt_impl-pieces :
    (t : Text)
    → (ps : List Piece) × (print ps ≡ t)
      × All IsPiece ps
      × ((args : List Text) → tr_fmt_impl t args ≡ filled args ps)
unfolding tr_fmt_impl
tr_fmt_impl-pieces t =
    let (ps, made) = fill-pieces (suc (length t)) t (omega arith) in (ps, made.0, made.1, made.2)

token_text-nil : (ds : Text) → token_text [] ds ≡ b'{' ∷ (ds ++ b'}' ∷ [])
unfolding token_text
token_text-nil ds = elim (Option-cases (parse_decimal (2 ^ 64 - 1) ds)) [
  | inl e ↦ rw (token_text, e) refl
  | inr (i, e) ↦ ground (arith, e)
]

filled-nil : (ps : List Piece) → filled [] ps ≡ print ps
filled-nil [] = refl
filled-nil (lit c ∷ ps) = ap (λ t. c ∷ t) (filled-nil ps)
filled-nil (token ds ∷ ps) =
    rw (token_text-nil ds, filled-nil ps)
      (ap (λ t. b'{' ∷ t) (append_assoc ds (b'}' ∷ []) (print ps)))

-- Without arguments a template stands for itself.
pub tr_fmt_impl-nil : (t : Text) → tr_fmt_impl t [] ≡ t
tr_fmt_impl-nil t =
    let (ps, same, pieces, result) = tr_fmt_impl-pieces t in result [] ∙ filled-nil ps ∙ same
