-- ===== src/I18n.antt =====
-- src/i18n.rs: the texts that are shown. A template is filled with arguments, a catalog is read from a
-- compiled `.mo` file, and the language is chosen from the environment. A text is the list of its code
-- points; `String::from_utf8_lossy` and the test for a file are arguments.
pub mod Template
pub mod Catalog
pub mod Language
use link_p2p.Prelude.{
  ℕ, zero, suc, ◌+◌, ◌-◌, ◌*◌, ◌^◌, Bool, true, false, ◌&&◌, not, Option, none, some, List, [], ◌∷◌,
  ◌++◌, ltb, leb, ◌==◌, length, get_or, take, drop, bytes_eq, if◌then◌else◌,
}
use link_p2p.Net.{Bytes}
use link_p2p.ShortCode.{Text}
use link_p2p.Contacts.{trim, is_nil}
use link_p2p.Decimal.{is_digit, parse_decimal}

-- `take_while(u8::is_ascii_digit)`, and what is behind it.
unfoldable pub digits_of : Text → Text
digits_of [] = []
digits_of (c ∷ cs) = let rest = digits_of cs in if is_digit c then c ∷ rest else []

unfoldable pub after_digits : Text → Text
after_digits [] = []
after_digits (c ∷ cs) = let rest = after_digits cs in if is_digit c then rest else c ∷ cs

abbrev pub closed : Text → Text → Option (Text × Text)
closed [] rest = none
closed (d ∷ ds) [] = none
closed (d ∷ ds) (c ∷ rest) = if c == b'}' then some (d ∷ ds, rest) else none

-- The digits of a token behind its `{`, with what follows the token.
unfoldable pub token_at : Text → Option (Text × Text)
token_at cs = closed (digits_of cs) (after_digits cs)

unfoldable pub token_text : List Text → Text → Text
token_text args ds = elim (parse_decimal (2 ^ 64 - 1) ds) [
  | some i ↦ if ltb i (length args) then get_or args i [] else b'{' ∷ (ds ++ b'}' ∷ [])
  | none ↦ b'{' ∷ (ds ++ b'}' ∷ [])
]

-- The loop of `tr_fmt_impl`; every round takes at least one character.
unfoldable pub fill : ℕ → List Text → Text → Text
unfolding token_at token_text
fill zero args rest = []
fill (suc fuel) args [] = []
fill (suc fuel) args (c ∷ after) =
    let literal = c ∷ fill fuel args after in
    if not (c == b'{') then literal else elim (token_at after) [
      | none ↦ literal
      | some (ds, rest) ↦ token_text args ds ++ fill fuel args rest
    ]

unfoldable pub tr_fmt_impl : Text → List Text → Text
unfolding fill
tr_fmt_impl template args = fill (suc (length template)) args template

-- `bytes.get(off..off + len)`
unfoldable pub slice : Bytes → ℕ → ℕ → Option Bytes
slice bytes off len =
    if leb (off + len) (length bytes) then some (take len (drop off bytes)) else none

abbrev pub from_be : Bytes → ℕ
from_be b = ((get_or b 0 0 * 256 + get_or b 1 0) * 256 + get_or b 2 0) * 256 + get_or b 3 0

abbrev pub from_le : Bytes → ℕ
from_le b = ((get_or b 3 0 * 256 + get_or b 2 0) * 256 + get_or b 1 0) * 256 + get_or b 0 0

-- The closure `rd`.
unfoldable pub rd : Bytes → Bool → ℕ → Option ℕ
unfolding slice
rd bytes big_endian off = elim (slice bytes off 4) [
  | none ↦ none
  | some b ↦ some (if big_endian then from_be b else from_le b)
]

-- The closure `desc`: the length and the offset of a string.
unfoldable pub desc : Bytes → Bool → ℕ → ℕ → Option (ℕ × ℕ)
unfolding rd
desc bytes big_endian tab i = elim (rd bytes big_endian (tab + i * 8)) [
  | none ↦ none
  | some len ↦ elim (rd bytes big_endian (tab + i * 8 + 4)) [
    | none ↦ none
    | some off ↦ some (len, off)
  ]
]

-- A string of a table.
unfoldable pub text_at : Bytes → Bool → ℕ → ℕ → Option Bytes
unfolding desc
text_at bytes big_endian tab i = elim (desc bytes big_endian tab i) [
  | none ↦ none
  | some (len, off) ↦ slice bytes off len
]

-- `HashMap::insert`
unfoldable pub put : List (Text × Text) → Text → Text → List (Text × Text)
put [] k v = (k, v) ∷ []
put ((a, b) ∷ m) k v = let rest = put m k v in if bytes_eq a k then (k, v) ∷ m else (a, b) ∷ rest

module _ (lossy : Bytes → Text) where
  abbrev pub insert_entry : List (Text × Text) → Bytes → Bytes → List (Text × Text)
  unfolding put
  insert_entry map [] trans = map
  insert_entry map (o ∷ orig) trans = put map (lossy (o ∷ orig)) (lossy trans)

  -- The loop over the strings from `i` on, `left` of them.
  unfoldable pub entries :
      Bytes → Bool → ℕ → ℕ → ℕ → ℕ → List (Text × Text) → Option (List (Text × Text))
  unfolding text_at
  entries bytes big_endian orig_tab trans_tab i zero map = some map
  entries bytes big_endian orig_tab trans_tab i (suc left) map =
      elim (text_at bytes big_endian orig_tab i) [
        | none ↦ none
        | some orig ↦ elim (text_at bytes big_endian trans_tab i) [
          | none ↦ none
          | some trans ↦
              entries bytes big_endian orig_tab trans_tab (suc i) left (insert_entry map orig trans)
        ]
      ]

  unfoldable pub parse_mo : Bytes → Option (List (Text × Text))
  unfolding entries rd
  parse_mo bytes =
      if ltb (length bytes) 28
      then none
      else let big_endian = not (from_le (take 4 bytes) == 0x9504_12de) in
        elim (rd bytes big_endian 8) [
          | none ↦ none
          | some n ↦ elim (rd bytes big_endian 12) [
            | none ↦ none
            | some orig_tab ↦ elim (rd bytes big_endian 16) [
              | none ↦ none
              | some trans_tab ↦ entries bytes big_endian orig_tab trans_tab 0 n []
            ]
          ]
        ]

-- `lookup`, with the catalog that `init` has loaded.
unfoldable pub find : List (Text × Text) → Text → Option Text
find [] k = none
find ((a, b) ∷ m) k = if bytes_eq a k then some b else find m k

unfoldable pub lookup : Option (List (Text × Text)) → Text → Text
unfolding find
lookup none msgid = msgid
lookup (some map) msgid = elim (find map msgid) [ none ↦ msgid | some text ↦ text ]
