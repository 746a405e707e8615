-- ===== src/Identity/Hex.antt =====
-- Keys as hex in src/identity.rs: what is printed is read back.
use link_p2p.Prelude.{
  ℕ, suc, ◌+◌, ◌*◌, ◌/◌, ◌%◌, ◌<◌, ◌≡◌, refl, ap, ◌∙◌, Bool, true, false, ◌&&◌, ◌||◌, some, [], ◌∷◌,
  leb, ltb, ◌==◌, length, All, arith,
}
use link_p2p.Net.{Bytes, IsByte}
use link_p2p.Outcome.{ok}
use link_p2p.ShortCode.{Text}
use link_p2p.Utf8.{is_utf8, utf8_from, lead, follow}
use link_p2p.Contacts.{is_whitespace, trim, trim_end, byte_length, split_at, width}
use link_p2p.Identity.{
  as_bytes, decode, from_utf8, hex_digit, hex_value, to_hex, from_radix16, key_bytes,
  is_encrypted_key, push_byte,
}

-- A digit of lower-case hex.
abbrev pub is_hex : ℕ → Bool
is_hex c = (leb b'0' c && leb c b'9') || (leb b'a' c && leb c b'f')

abbrev pub IsHex : Text → Type 0
IsHex = All (λ c. is_hex c ≡ true)

hex_digit-is_hex : (n : ℕ) → n < 16 → is_hex (hex_digit n) ≡ true
hex_digit-is_hex n h = ground (arith, h)

hex_value-hex_digit : (n : ℕ) → n < 16 → hex_value (hex_digit n) ≡ some n
hex_value-hex_digit n h = ground (arith, h)

pub to_hex-IsHex : (bs : Bytes) → All IsByte bs → IsHex (to_hex bs)
unfolding to_hex
to_hex-IsHex [] h = tt
to_hex-IsHex (b ∷ bs) (byte, h) = (
  hex_digit-is_hex (b / 16) (omega (arith, byte)),
  (hex_digit-is_hex (b % 16) (omega arith), to_hex-IsHex bs h),
)

pub length-to_hex : (bs : Bytes) → length (to_hex bs) ≡ 2 * length bs
unfolding to_hex
length-to_hex [] = refl
length-to_hex (b ∷ bs) = omega (arith, length-to_hex bs)

pub as_bytes-IsHex : (t : Text) → IsHex t → as_bytes t ≡ t
unfolding as_bytes
as_bytes-IsHex [] h = refl
as_bytes-IsHex (c ∷ cs) (d, h) =
    let small : ltb c 0x80 ≡ true = ground (arith, d) in rw (small, as_bytes-IsHex cs h) refl

decode-IsHex : (t : Text) → IsHex t → decode 0 0 t ≡ t
unfolding decode
decode-IsHex [] h = refl
decode-IsHex (c ∷ cs) (d, h) =
    let small : ltb c 0x80 ≡ true = ground (arith, d) in rw (small, decode-IsHex cs h) refl

pub byte_length-IsHex : (t : Text) → IsHex t → byte_length t ≡ length t
unfolding byte_length
byte_length-IsHex [] h = refl
byte_length-IsHex (c ∷ cs) (d, h) =
    let narrow : width c ≡ 1 = ground (arith, d) in omega (arith, narrow, byte_length-IsHex cs h)

not_whitespace : (c : ℕ) → is_hex c ≡ true → is_whitespace c ≡ false
unfolding is_whitespace
not_whitespace c h = ground (arith, h)

trim_end-IsHex : (t : Text) → IsHex t → trim_end t ≡ t
trim_end-IsHex [] h = refl
trim_end-IsHex (c ∷ cs) (d, h) = ground (arith, trim_end-IsHex cs h, not_whitespace c d)

pub trim-IsHex : (t : Text) → IsHex t → trim t ≡ t
unfolding trim
trim-IsHex [] h = refl
trim-IsHex (c ∷ cs) (d, h) = rw (not_whitespace c d) (trim_end-IsHex (c ∷ cs) (d, h))

lead-ascii : (c : ℕ) → ltb c 0x80 ≡ true → lead c ≡ follow 0 0 0
unfolding lead
lead-ascii c small = rw (lead, small) refl

utf8_from-IsHex : (t : Text) → IsHex t → utf8_from (follow 0 0 0) t ≡ true
unfolding utf8_from
utf8_from-IsHex [] h = refl
utf8_from-IsHex (c ∷ cs) (d, h) =
    let small : ltb c 0x80 ≡ true = ground (arith, d) in
    rw (utf8_from, lead-ascii c small) (utf8_from-IsHex cs h)

pub from_utf8-IsHex : (t : Text) → IsHex t → from_utf8 t ≡ some t
unfolding from_utf8
from_utf8-IsHex t h = rw (from_utf8, is_utf8, utf8_from-IsHex t h) (ap some (decode-IsHex t h))

split_at-zero : (t : Text) → split_at 0 t ≡ some ([], t)
unfolding split_at
split_at-zero [] = refl
split_at-zero (c ∷ cs) = refl

width-is_hex : (c : ℕ) → is_hex c ≡ true → width c ≡ 1
width-is_hex c h = ground (arith, h)

split_at-two :
    (a b : ℕ) (t : Text)
    → is_hex a ≡ true
    → is_hex b ≡ true
    → split_at 2 (a ∷ b ∷ t) ≡ some (a ∷ b ∷ [], t)
unfolding split_at
split_at-two a b t h k = rw (width-is_hex a h, width-is_hex b k, split_at-zero t) refl

from_radix16-hex_digit :
    (b : ℕ) → IsByte b → from_radix16 (hex_digit (b / 16) ∷ hex_digit (b % 16) ∷ []) ≡ some b
unfolding from_radix16
from_radix16-hex_digit b byte =
    let digit = hex_digit-is_hex (b / 16) (omega (arith, byte)) in
    let unsigned : (hex_digit (b / 16) == b'+') ≡ false = ground (arith, digit) in
    let whole : b / 16 * 16 + b % 16 ≡ b = omega arith in
    rw
      (
        from_radix16,
        unsigned,
        hex_value-hex_digit (b / 16) (omega (arith, byte)),
        hex_value-hex_digit (b % 16) (omega arith),
        whole,
      )
      refl

key_bytes-zero : (hex : Text) → key_bytes 0 hex ≡ some (ok [])
unfolding key_bytes
key_bytes-zero hex = refl

-- One round of the loop.
key_bytes-suc :
    (n b : ℕ) (hex pair rest : Text)
    → split_at 2 hex ≡ some (pair, rest)
    → from_radix16 pair ≡ some b
    → key_bytes (suc n) hex ≡ push_byte b (key_bytes n rest)
unfolding key_bytes
key_bytes-suc n b hex pair rest e r = rw (key_bytes, e, r) refl

pub key_bytes-to_hex :
    (bs : Bytes) → All IsByte bs → key_bytes (length bs) (to_hex bs) ≡ some (ok bs)
unfolding to_hex
key_bytes-to_hex [] h = key_bytes-zero []
key_bytes-to_hex (b ∷ bs) (byte, h) =
    let high = hex_digit-is_hex (b / 16) (omega (arith, byte)) in
    let low = hex_digit-is_hex (b % 16) (omega arith) in
    key_bytes-suc (length bs) b (to_hex (b ∷ bs)) (hex_digit (b / 16) ∷ hex_digit (b % 16) ∷ [])
      (to_hex bs) (split_at-two (hex_digit (b / 16)) (hex_digit (b % 16)) (to_hex bs) high low)
      (from_radix16-hex_digit b byte)
    ∙ rw (key_bytes-to_hex bs h) refl

-- Hex never starts as an encrypted file does.
pub is_encrypted_key-IsHex : (t : Text) → IsHex t → is_encrypted_key t ≡ false
unfolding is_encrypted_key
is_encrypted_key-IsHex [] h = refl
is_encrypted_key-IsHex (c ∷ cs) (d, h) =
    let other : (c == b'l') ≡ false = ground (arith, d) in rw other refl
