-- ===== src/Identity.antt =====
-- src/identity.rs: the file that keeps a secret key, as hex or encrypted. The ciphers, the random bytes
-- and what the file system refuses are arguments; a key is its 32 bytes, a text its code points. A
-- result is `none` where the source panics.
pub mod Files
pub mod Hex
pub mod Written
pub mod Reload
pub mod Kept
pub mod Faults
pub mod Paths
use link_p2p.Prelude.{
  ℕ, zero, suc, ◌+◌, ◌-◌, ◌*◌, ◌/◌, ◌%◌, ◌≡◌, Bool, true, false, ◌&&◌, not, Option, none, some,
  List, [], ◌∷◌, ◌++◌, ltb, leb, ◌==◌, length, take, drop, bytes_eq, if◌then◌else◌,
}
use link_p2p.Net.{Bytes}
use link_p2p.Outcome.{
  Msg, Error, Result, ok, err, root, context, coded, with_context, or_err, exit_usage,
}
use link_p2p.ShortCode.{Text}
use link_p2p.Contacts.{trim, byte_length, split_at}
use link_p2p.Utf8.{is_utf8}

-- `argon2` and `chacha20poly1305`, which give what was encrypted back under the same key, nonce and
-- associated data.
pub record Ciphers : Type 0 where
  pub derive_key : Text → Bytes → Option Bytes
  pub encrypt : Bytes → Bytes → Bytes → Bytes → Option Bytes
  pub decrypt : Bytes → Bytes → Bytes → Bytes → Option Bytes
  pub opens :
      (key nonce aad msg c : Bytes)
      → encrypt key nonce aad msg ≡ some c
      → decrypt key nonce aad c ≡ some msg

-- What `getrandom` fills the salt and the nonce with.
pub record Entropy : Type 0 where
  pub salt : Option Bytes
  pub nonce : Option Bytes

abbrev pub passphrase_min_len : ℕ
passphrase_min_len = 8

abbrev pub passphrase_max_len : ℕ
passphrase_max_len = 1024

unfoldable pub validate_passphrase : Text → Result (Unit {0})
unfolding byte_length
validate_passphrase p =
    if ltb (length p) passphrase_min_len
    then err (coded exit_usage (root Msg.passphrase_too_short))
    else if ltb passphrase_max_len (byte_length p)
    then err (coded exit_usage (root Msg.passphrase_too_long))
    else ok tt

-- "linkp2p-k1"
abbrev pub key_file_magic : Bytes
key_file_magic = b'l' ∷ b'i' ∷ b'n' ∷ b'k' ∷ b'p' ∷ b'2' ∷ b'p' ∷ b'-' ∷ b'k' ∷ b'1' ∷ []

unfoldable pub is_encrypted_key : Bytes → Bool
is_encrypted_key bytes = bytes_eq (take 10 bytes) key_file_magic

-- `str::as_bytes`
abbrev pub encode_char : ℕ → Bytes
encode_char c =
    if ltb c 0x80
    then c ∷ []
    else if ltb c 0x800
    then (0xc0 + c / 64) ∷ (0x80 + c % 64) ∷ []
    else if ltb c 0x1_0000
    then (0xe0 + c / 4096) ∷ (0x80 + c / 64 % 64) ∷ (0x80 + c % 64) ∷ []
    else (0xf0 + c / 262144) ∷ (0x80 + c / 4096 % 64) ∷ (0x80 + c / 64 % 64) ∷ (0x80 + c % 64) ∷ []

unfoldable pub as_bytes : Text → Bytes
as_bytes [] = []
as_bytes (c ∷ cs) = encode_char c ++ as_bytes cs

-- The code points of UTF-8, with `need` continuation bytes missing behind `acc`.
unfoldable pub decode : ℕ → ℕ → Bytes → Text
decode need acc [] = []
decode zero acc (b ∷ bs) =
    let one = b ∷ decode 0 0 bs in
    let two = decode 1 (b - 0xc0) bs in
    let three = decode 2 (b - 0xe0) bs in
    let four = decode 3 (b - 0xf0) bs in
    if ltb b 0x80 then one else if ltb b 0xe0 then two else if ltb b 0xf0 then three else four
decode (suc n) acc (b ∷ bs) =
    let last = (acc * 64 + (b - 0x80)) ∷ decode 0 0 bs in
    let more = decode n (acc * 64 + (b - 0x80)) bs in if n == 0 then last else more

unfoldable pub from_utf8 : Bytes → Option Text
unfolding is_utf8 decode
from_utf8 bytes = if is_utf8 bytes then some (decode 0 0 bytes) else none

abbrev pub hex_digit : ℕ → ℕ
hex_digit n = if ltb n 10 then b'0' + n else b'a' + (n - 10)

-- `{b:02x}` of every byte.
unfoldable pub to_hex : Bytes → Text
to_hex [] = []
to_hex (b ∷ bs) = hex_digit (b / 16) ∷ hex_digit (b % 16) ∷ to_hex bs

abbrev pub hex_value : ℕ → Option ℕ
hex_value c =
    if leb b'0' c && leb c b'9'
    then some (c - b'0')
    else if leb b'a' c && leb c b'f'
    then some (c - b'a' + 10)
    else if leb b'A' c && leb c b'F'
    then some (c - b'A' + 10)
    else none

abbrev pub two_digits : Option ℕ → Option ℕ → Option ℕ
two_digits (some h) (some l) = some (h * 16 + l)
two_digits _ _ = none

-- `u8::from_str_radix(s, 16)` of two bytes of text, where a leading `+` is a sign.
unfoldable pub from_radix16 : Text → Option ℕ
from_radix16 (a ∷ b ∷ []) =
    if a == b'+' then hex_value b else two_digits (hex_value a) (hex_value b)
from_radix16 _ = none

abbrev pub push_byte : ℕ → Option (Result Bytes) → Option (Result Bytes)
push_byte b none = none
push_byte b (some (err e)) = some (err e)
push_byte b (some (ok bs)) = some (ok (b ∷ bs))

-- The loop of `secret_key_from_hex`, with `n` bytes to come.
unfoldable pub key_bytes : ℕ → Text → Option (Result Bytes)
unfolding split_at from_radix16
key_bytes zero hex = some (ok [])
key_bytes (suc n) hex = elim (split_at 2 hex) [
  | none ↦ none
  | some (pair, rest) ↦ elim (from_radix16 pair) [
    | none ↦ some (err (context Msg.identity_not_hex (root Msg.parse_int_error)))
    | some b ↦ push_byte b (key_bytes n rest)
  ]
]

module _ (ciphers : Ciphers) where
  unfoldable pub encrypt_key_hex : Entropy → Text → Text → Result Bytes
  unfolding as_bytes
  encrypt_key_hex random hex passphrase = elim random.salt [
    | none ↦ err (root Msg.no_entropy)
    | some salt ↦ elim random.nonce [
      | none ↦ err (root Msg.no_entropy)
      | some nonce ↦ elim (ciphers.derive_key passphrase salt) [
        | none ↦ err (root Msg.key_derivation)
        | some dk ↦ elim (ciphers.encrypt dk nonce key_file_magic (as_bytes hex)) [
          | none ↦ err (root Msg.encrypting_identity)
          | some c ↦ ok (key_file_magic ++ (salt ++ (nonce ++ c)))
        ]
      ]
    ]
  ]

  -- What follows the slices.
  unfoldable pub decrypt_parts : Bytes → Bytes → Bytes → Text → Option (Result Text)
  unfolding from_utf8
  decrypt_parts salt nonce c passphrase = elim (ciphers.derive_key passphrase salt) [
    | none ↦ some (err (root Msg.key_derivation))
    | some dk ↦ elim (ciphers.decrypt dk nonce key_file_magic c) [
      | none ↦ some (err (root Msg.bad_passphrase))
      | some plain ↦ elim (from_utf8 plain) [
        | none ↦ some (err (context Msg.identity_not_utf8 (root Msg.utf8_error)))
        | some hex ↦ some (ok hex)
      ]
    ]
  ]

  -- The slices of the salt and the nonce panic in a file that is too short for them.
  unfoldable pub decrypt_key_hex : Bytes → Text → Option (Result Text)
  unfolding is_encrypted_key decrypt_parts
  decrypt_key_hex bytes passphrase =
      if not (is_encrypted_key bytes)
      then some (err (root Msg.identity_not_encrypted))
      else if ltb (length bytes) 50
      then none
      else decrypt_parts (take 16 (drop 10 bytes)) (take 24 (drop 26 bytes)) (drop 50 bytes)
          passphrase
