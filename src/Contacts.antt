-- ===== src/Contacts.antt =====
-- src/contacts.rs and src/phone_ring.rs: the contact book and what a token on the command line stands
-- for. The book is a list of names in their order, with the text of each contact's id; relay and
-- address hints are left out. A result is `none` where the source panics.
pub mod Tokens
pub mod Panics
pub mod Book
use link_p2p.Prelude.{
  ℕ, zero, suc, ◌+◌, ◌-◌, ◌≡◌, Bool, true, false, ◌&&◌, ◌||◌, not, Option, none, some, List, [],
  ◌∷◌, ltb, leb, ◌==◌, length, take, bytes_eq, if◌then◌else◌,
}
use link_p2p.Net.{Bytes}
use link_p2p.Outcome.{Msg, Result, ok, err, root, context}
use link_p2p.Endpoint.{Endpoints}
use link_p2p.ShortCode.{Text, to_ascii_uppercase, decode_crockford, check_symbol}

-- iroh's text form of an id: `to_string` is hex, and `parse` reads hex or base32, neither of which
-- has a dash.
unfoldable pub has_dash : Text → Bool
has_dash [] = false
has_dash (c ∷ cs) = c == b'-' || has_dash cs

pub record IdText (NodeId : Type 0) : Type 0 where
  pub to_text : NodeId → Text
  pub from_text : Text → Option NodeId
  pub reads_back : (i : NodeId) → from_text (to_text i) ≡ some i
  pub no_dash : (t : Text) → has_dash t ≡ true → from_text t ≡ none

-- `char::is_whitespace`
unfoldable pub is_whitespace : ℕ → Bool
is_whitespace c =
    (leb 9 c && leb c 13)
    || c == 0x20
    || c == 0x85
    || c == 0xa0
    || c == 0x1680
    || (leb 0x2000 c && leb c 0x200a)
    || c == 0x2028
    || c == 0x2029
    || c == 0x202f
    || c == 0x205f
    || c == 0x3000

abbrev pub trim_start : Text → Text
trim_start [] = []
trim_start (c ∷ cs) = let rest = trim_start cs in if is_whitespace c then rest else c ∷ cs

abbrev pub is_nil : Text → Bool
is_nil [] = true
is_nil (_ ∷ _) = false

abbrev pub trim_end : Text → Text
trim_end [] = []
trim_end (c ∷ cs) =
    let rest = trim_end cs in if is_nil rest && is_whitespace c then [] else c ∷ rest

unfoldable pub trim : Text → Text
trim s = trim_end (trim_start s)

abbrev pub unambiguous : ℕ → ℕ
unambiguous c = if c == b'I' || c == b'L' then b'1' else if c == b'O' then b'0' else c

-- The filter and the map of `parse_endpoint_token`.
unfoldable pub compact : Text → Text
unfolding is_whitespace
compact [] = []
compact (c ∷ cs) =
    let rest = compact cs in
    if not (c == b'-') && not (is_whitespace c)
    then unambiguous (to_ascii_uppercase c) ∷ rest
    else rest

-- The bytes of a code point in UTF-8.
abbrev pub width : ℕ → ℕ
width c = if ltb c 0x80 then 1 else if ltb c 0x800 then 2 else if ltb c 0x1_0000 then 3 else 4

unfoldable pub byte_length : Text → ℕ
byte_length [] = 0
byte_length (c ∷ cs) = width c + byte_length cs

abbrev pub cons_first : ℕ → Option (Text × Text) → Option (Text × Text)
cons_first c none = none
cons_first c (some (a, b)) = some (c ∷ a, b)

-- `str::split_at`, at a byte offset: `none` inside a character, where it panics.
unfoldable pub split_at : ℕ → Text → Option (Text × Text)
split_at n [] = if n == 0 then some ([], []) else none
split_at n (c ∷ cs) =
    let rest = split_at (n - width c) cs in
    if n == 0 then some ([], c ∷ cs) else if ltb n (width c) then none else cons_first c rest

module _ {NodeId : Type 0} (ids : Endpoints NodeId) (texts : IdText NodeId) where
  abbrev pub id_of : Bytes → Result NodeId
  id_of arr = elim (ids.from_bytes arr) [
    | some id ↦ ok id
    | none ↦ err (context Msg.invalid_endpoint (root Msg.invalid_endpoint))
  ]

  -- The form of 52 symbols and a check symbol.
  unfoldable pub read_checked : Text → ℕ → Result NodeId
  read_checked body check = elim (decode_crockford body) [
    | err e ↦ err e
    | ok bytes ↦
        if ltb (length bytes) 32
        then err (root Msg.not_an_endpoint)
        else if not (check_symbol (take 32 bytes) == check)
        then err (root Msg.check_mismatch)
        else id_of (take 32 bytes)
  ]

  unfoldable pub read_split : Option (Text × Text) → Option (Result NodeId)
  unfolding read_checked
  read_split none = none
  read_split (some (body, [])) = some (err (root Msg.invalid_character))
  read_split (some (body, check ∷ _)) = some (read_checked body check)

  -- The form without a check symbol.
  unfoldable pub read_legacy : Text → Result NodeId
  read_legacy s = elim (decode_crockford s) [
    | err e ↦ err (root Msg.not_an_endpoint)
    | ok bytes ↦
        if ltb (length bytes) 32 then err (root Msg.not_an_endpoint) else id_of (take 32 bytes)
  ]

  unfoldable pub parse_endpoint_token : Text → Option (Result NodeId)
  unfolding trim compact byte_length split_at read_split read_legacy
  parse_endpoint_token token = elim (texts.from_text (trim token)) [
    | some id ↦ some (ok id)
    | none ↦
        let s = compact (trim token) in
        if length s == 53
        then read_split (split_at (byte_length s - 1) s)
        else if length s == 52
        then some (read_legacy s)
        else some (err (root Msg.not_an_endpoint))
  ]
