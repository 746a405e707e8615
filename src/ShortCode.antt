-- ===== src/ShortCode.antt =====
-- The short codes of src/contacts.rs: an EndpointId in Crockford Base32 with a check symbol. A text is
-- the list of its code points. The buffer of both loops is a u32, which drops the bits that it shifts
-- out.
pub mod Blocks
pub mod Codec
use link_p2p.Prelude.{
  ℕ, zero, suc, ◌+◌, ◌-◌, ◌*◌, ◌/◌, ◌%◌, ◌^◌, Bool, ◌&&◌, Option, none, some, List, [], ◌∷◌, ◌++◌,
  ltb, leb, ◌==◌, get_or, bit_and, bit_or, if◌then◌else◌,
}
use link_p2p.Net.{Bytes}
use link_p2p.Outcome.{Msg, Result, ok, err, root}

abbrev pub Text : Type 0
Text = List ℕ

abbrev pub crockford : Text
crockford =
    b'0' ∷ b'1' ∷ b'2' ∷ b'3' ∷ b'4' ∷ b'5' ∷ b'6' ∷ b'7' ∷ b'8' ∷ b'9' ∷ b'A' ∷ b'B' ∷ b'C' ∷ b'D'
    ∷ b'E' ∷ b'F' ∷ b'G' ∷ b'H' ∷ b'J' ∷ b'K' ∷ b'M' ∷ b'N' ∷ b'P' ∷ b'Q' ∷ b'R' ∷ b'S' ∷ b'T'
    ∷ b'V' ∷ b'W' ∷ b'X' ∷ b'Y' ∷ b'Z' ∷ []

-- `CROCKFORD[i] as char`
unfoldable pub symbol : ℕ → ℕ
symbol i = get_or crockford i 0

unfoldable pub hash_from : ℕ → Bytes → ℕ
hash_from x [] = x
hash_from x (b ∷ bs) = hash_from ((x * 31 % 4294967296 + b) % 4294967296) bs

unfoldable pub check_symbol : Bytes → ℕ
unfolding hash_from symbol
check_symbol bs = symbol (hash_from 0 bs % 32)

-- `while nbits >= 5`: fewer than 13 bits are pending, so two rounds are enough.
unfoldable pub push_symbols : ℕ → ℕ → ℕ → Text × ℕ
unfolding symbol
push_symbols zero buf nbits = ([], nbits)
push_symbols (suc fuel) buf nbits =
    let rest = push_symbols fuel buf (nbits - 5) in
    if ltb nbits 5
    then ([], nbits)
    else (symbol (bit_and (buf / 2 ^ (nbits - 5)) 0x1f) ∷ rest.0, rest.1)

unfoldable pub encode_from : ℕ → ℕ → Bytes → Text
unfolding push_symbols symbol
encode_from buf nbits [] =
    if ltb 0 nbits then symbol (bit_and (buf * 2 ^ (5 - nbits) % 4294967296) 0x1f) ∷ [] else []
encode_from buf nbits (b ∷ bs) =
    let next = bit_or (buf * 256 % 4294967296) b in
    let pushed = push_symbols 2 next (nbits + 8) in pushed.0 ++ encode_from next pushed.1 bs

unfoldable pub encode_crockford : Bytes → Text
unfolding encode_from
encode_crockford bs = encode_from 0 0 bs

abbrev pub to_ascii_uppercase : ℕ → ℕ
to_ascii_uppercase c = if leb b'a' c && leb c b'z' then c - 32 else c

-- `iter().position(|&b| b == x)`
unfoldable pub position : Text → ℕ → Option ℕ
position [] x = none
position (b ∷ bs) x =
    let rest = position bs x in
    if b == x then some 0 else elim rest [ none ↦ none | some i ↦ some (suc i) ]

-- `while nbits >= 8`: fewer than 13 bits are pending, so one round is enough.
unfoldable pub push_byte : ℕ → ℕ → Bytes × ℕ
push_byte buf nbits =
    if ltb nbits 8 then ([], nbits) else (bit_and (buf / 2 ^ (nbits - 8)) 0xff ∷ [], nbits - 8)

abbrev pub prepend : Bytes → Result Bytes → Result Bytes
prepend xs (ok ys) = ok (xs ++ ys)
prepend xs (err e) = err e

-- `u as u8` keeps the low eight bits of a code point.
unfoldable pub decode_from : ℕ → ℕ → Text → Result Bytes
unfolding push_byte position
decode_from buf nbits [] = ok []
decode_from buf nbits (c ∷ cs) = elim (position crockford (to_ascii_uppercase c % 256)) [
  | none ↦ err (root Msg.invalid_character)
  | some v ↦
      let next = bit_or (buf * 32 % 4294967296) v in
      let pushed = push_byte next (nbits + 5) in prepend pushed.0 (decode_from next pushed.1 cs)
]

unfoldable pub decode_crockford : Text → Result Bytes
unfolding decode_from
decode_crockford s = decode_from 0 0 s

-- `chunks(4)`, joined by `-`.
unfoldable pub grouped : Text → Text
grouped (a ∷ b ∷ c ∷ d ∷ e ∷ rest) = a ∷ b ∷ c ∷ d ∷ b'-' ∷ grouped (e ∷ rest)
grouped s = s

-- The code of the 32 bytes of an id.
unfoldable pub encode_short_code : Bytes → Text
unfolding grouped encode_crockford check_symbol
encode_short_code id = grouped (encode_crockford id ++ check_symbol id ∷ [])
