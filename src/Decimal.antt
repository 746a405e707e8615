-- ===== src/Decimal.antt =====
-- Decimal numbers as std prints and parses them: `{}` of an unsigned integer, and `str::parse`.
use link_p2p.Prelude.{
  ℕ, zero, suc, ◌+◌, ◌-◌, ◌*◌, ◌/◌, ◌%◌, ◌<◌, ◌≤◌, ◌≡◌, ◌∙◌, ap, Bool, true, false, ◌&&◌, Option,
  none, some, [], ◌∷◌, ◌++◌, ltb, leb, ◌==◌, length, length-append, All, All-append, Bool-cases,
  arith, inl, inr, if◌then◌else◌,
}
use link_p2p.ShortCode.{Text}

-- A number has fewer digits than its successor as fuel.
unfoldable pub digits_from : ℕ → ℕ → Text
digits_from zero n = []
digits_from (suc fuel) n =
    let rest = digits_from fuel (n / 10) in
    if ltb n 10 then (b'0' + n) ∷ [] else rest ++ (b'0' + n % 10) ∷ []

unfoldable pub to_decimal : ℕ → Text
unfolding digits_from
to_decimal n = digits_from (suc n) n

abbrev pub is_digit : ℕ → Bool
is_digit c = leb b'0' c && leb c b'9'

-- The value of a run of digits behind `acc`.
unfoldable pub value_from : ℕ → Text → Option ℕ
value_from acc [] = some acc
value_from acc (c ∷ cs) =
    let rest = value_from (acc * 10 + (c - b'0')) cs in if is_digit c then rest else none

abbrev pub at_most : ℕ → Option ℕ → Option ℕ
at_most limit none = none
at_most limit (some n) = if leb n limit then some n else none

abbrev pub unsigned : Text → Text
unsigned [] = []
unsigned (c ∷ cs) = if c == b'+' then cs else c ∷ cs

abbrev pub nonempty_value : Text → Option ℕ
unfolding value_from
nonempty_value [] = none
nonempty_value (c ∷ cs) = value_from 0 (c ∷ cs)

-- `parse::<u32>()` and `parse::<u64>()`, which accept one leading `+`; `limit` is the type's `MAX`.
unfoldable pub parse_decimal : ℕ → Text → Option ℕ
unfolding nonempty_value
parse_decimal limit s = at_most limit (nonempty_value (unsigned s))

value_from-digit :
    (xs : Text) (acc v c : ℕ)
    → value_from acc xs ≡ some v
    → is_digit c ≡ true
    → value_from acc (xs ++ c ∷ []) ≡ some (v * 10 + (c - b'0'))
unfolding value_from
value_from-digit [] acc v c h d = ground (arith, h, d)
value_from-digit (x ∷ xs) acc v c h d = elim (Bool-cases (is_digit x)) [
  | inl t ↦ rw t (value_from-digit xs (acc * 10 + (x - b'0')) v c (ground (arith, h, t)) d)
  | inr t ↦ absurd (ground (arith, h, t))
]

pub value-digits : (fuel n : ℕ) → n < fuel → value_from 0 (digits_from fuel n) ≡ some n
unfolding digits_from value_from
value-digits zero n h = absurd (omega (arith, h))
value-digits (suc fuel) n h = elim (Bool-cases (ltb n 10)) [
  | inl t ↦ ground (arith, t)
  | inr t ↦
      let big : 10 ≤ n = ground (arith, t) in
      let rest = value-digits fuel (n / 10) (omega (arith, h, big)) in
      let digit : is_digit (b'0' + n % 10) ≡ true = ground arith in
      let whole : n / 10 * 10 + (b'0' + n % 10 - b'0') ≡ n = omega arith in
      rw t (
        value_from-digit (digits_from fuel (n / 10)) 0 (n / 10) (b'0' + n % 10) rest digit
        ∙ ap some whole)
]

pub digits-IsDigit : (fuel n : ℕ) → All (λ c. (is_digit c) ≡ true) (digits_from fuel n)
unfolding digits_from
digits-IsDigit zero n = tt
digits-IsDigit (suc fuel) n = elim (Bool-cases (ltb n 10)) [
  | inl t ↦ rw t (ground (arith, t), tt)
  | inr t ↦ rw t (
      All-append (λ c. (is_digit c) ≡ true) (digits_from fuel (n / 10)) ((b'0' + n % 10) ∷ [])
        (digits-IsDigit fuel (n / 10)) (ground arith, tt))
]

length-digits : (fuel n : ℕ) → 0 < length (digits_from (suc fuel) n)
unfolding digits_from
length-digits fuel n = elim (Bool-cases (ltb n 10)) [
  | inl t ↦ rw t (omega arith)
  | inr t ↦ rw t (omega (arith, length-append (digits_from fuel (n / 10)) ((b'0' + n % 10) ∷ [])))
]

parse-digits :
    (limit n : ℕ) (s : Text)
    → 0 < length s
    → All (λ c. (is_digit c) ≡ true) s
    → value_from 0 s ≡ some n
    → n ≤ limit
    → parse_decimal limit s ≡ some n
unfolding parse_decimal nonempty_value
parse-digits limit n [] pos h v l = absurd (omega (arith, pos))
parse-digits limit n (c ∷ cs) pos (hc, hs) v l =
    let unsigned_c : (c == b'+') ≡ false = ground (arith, hc) in
    rw (unsigned_c, v) (ground (arith, l))

-- A number within the type's bounds is parsed as it was printed.
pub parse_decimal-to_decimal :
    (limit n : ℕ) → n ≤ limit → parse_decimal limit (to_decimal n) ≡ some n
unfolding to_decimal
parse_decimal-to_decimal limit n l =
    parse-digits limit n (digits_from (suc n) n) (length-digits n n) (digits-IsDigit (suc n) n)
      (value-digits (suc n) n (omega arith)) l
