-- ===== src/ShortCode/Codec.antt =====
-- The codec of src/contacts.rs on the 32 bytes of an id.
use link_p2p.Prelude.{ℕ, zero, suc, ◌+◌, ◌*◌, ◌/◌, ◌%◌, ◌<◌, ◌≡◌, refl, [], ◌∷◌, length, All, arith}
use link_p2p.Net.{Bytes, IsByte}
use link_p2p.Outcome.{ok}
use link_p2p.ShortCode.{symbol, encode_from, decode_from, encode_crockford, decode_crockford}
use link_p2p.ShortCode.Blocks.{encode_block, encode_tail, decode_block, decode_tail}

decode-encode_blocks :
    (k : ℕ) (bs : Bytes) (buf next : ℕ)
    → length bs ≡ k * 5 + 2
    → All IsByte bs
    → decode_from next 0 (encode_from buf 0 bs) ≡ ok bs
decode-encode_blocks zero [] buf next l h = absurd (omega (arith, l))
decode-encode_blocks zero (a ∷ []) buf next l h = absurd (omega (arith, l))
decode-encode_blocks zero (a ∷ b ∷ []) buf next l (ha, (hb, _)) =
    let e0 : a / 8 * 8 + (a % 8 * 4 + b / 64) / 4 ≡ a = omega arith in
    let e1 : (a % 8 * 4 + b / 64) % 4 * 64 + b / 2 % 32 * 2 + b % 2 * 16 / 16 ≡ b = omega arith in
    rw
      (
        encode_tail buf a b ha hb,
        decode_tail next (a / 8) (a % 8 * 4 + b / 64) (b / 2 % 32) (b % 2 * 16) (omega arith)
            (omega arith) (omega arith) (omega arith),
        e0,
        e1,
      )
      refl
decode-encode_blocks zero (a ∷ b ∷ c ∷ bs) buf next l h = absurd (omega (arith, l))
decode-encode_blocks (suc k) [] buf next l h = absurd (omega (arith, l))
decode-encode_blocks (suc k) (a ∷ []) buf next l h = absurd (omega (arith, l))
decode-encode_blocks (suc k) (a ∷ b ∷ []) buf next l h = absurd (omega (arith, l))
decode-encode_blocks (suc k) (a ∷ b ∷ c ∷ []) buf next l h = absurd (omega (arith, l))
decode-encode_blocks (suc k) (a ∷ b ∷ c ∷ d ∷ []) buf next l h = absurd (omega (arith, l))
decode-encode_blocks (suc k) (a ∷ b ∷ c ∷ d ∷ e ∷ bs) buf next l (ha, (hb, (hc, (hd, (he, hs))))) =
    let (buf', encoded) = encode_block buf a b c d e bs ha hb hc hd he in
    let v0 = a / 8 in
    let v1 = a % 8 * 4 + b / 64 in
    let v2 = b / 2 % 32 in
    let v3 = b % 2 * 16 + c / 16 in
    let v4 = c % 16 * 2 + d / 128 in
    let v5 = d / 4 % 32 in
    let v6 = d % 4 * 8 + e / 32 in
    let v7 = e % 32 in
    let (next', decoded) =
      decode_block next v0 v1 v2 v3 v4 v5 v6 v7 (encode_from buf' 0 bs) (omega arith) (omega arith)
        (omega arith) (omega arith) (omega arith) (omega arith) (omega arith) (omega arith) in
    let rest = decode-encode_blocks k bs buf' next' (omega (arith, l)) hs in
    let e0 : v0 * 8 + v1 / 4 ≡ a = omega arith in
    let e1 : v1 % 4 * 64 + v2 * 2 + v3 / 16 ≡ b = omega arith in
    let e2 : v3 % 16 * 16 + v4 / 2 ≡ c = omega arith in
    let e3 : v4 % 2 * 128 + v5 * 4 + v6 / 8 ≡ d = omega arith in
    let e4 : v6 % 8 * 32 + v7 ≡ e = omega arith in
    rw (encoded, decoded, rest, e0, e1, e2, e3, e4) refl

-- One of the 32 symbols.
abbrev pub IsSymbol : ℕ → Type 0
IsSymbol c = (i : ℕ) × (i < 32) × (c ≡ symbol i)

symbol_of : (i : ℕ) → i < 32 → IsSymbol (symbol i)
symbol_of i h = (i, h, refl)

pub encode-symbols :
    (k : ℕ) (bs : Bytes) (buf : ℕ)
    → length bs ≡ k * 5 + 2
    → All IsByte bs
    → All IsSymbol (encode_from buf 0 bs) × (length (encode_from buf 0 bs) ≡ k * 8 + 4)
encode-symbols zero [] buf l h = absurd (omega (arith, l))
encode-symbols zero (a ∷ []) buf l h = absurd (omega (arith, l))
encode-symbols zero (a ∷ b ∷ []) buf l (ha, (hb, _)) = rw (encode_tail buf a b ha hb) (
  (
    symbol_of (a / 8) (omega arith),
    (
      symbol_of (a % 8 * 4 + b / 64) (omega arith),
      (symbol_of (b / 2 % 32) (omega arith), (symbol_of (b % 2 * 16) (omega arith), tt)),
    ),
  ),
  omega arith,
)
encode-symbols zero (a ∷ b ∷ c ∷ bs) buf l h = absurd (omega (arith, l))
encode-symbols (suc k) [] buf l h = absurd (omega (arith, l))
encode-symbols (suc k) (a ∷ []) buf l h = absurd (omega (arith, l))
encode-symbols (suc k) (a ∷ b ∷ []) buf l h = absurd (omega (arith, l))
encode-symbols (suc k) (a ∷ b ∷ c ∷ []) buf l h = absurd (omega (arith, l))
encode-symbols (suc k) (a ∷ b ∷ c ∷ d ∷ []) buf l h = absurd (omega (arith, l))
encode-symbols (suc k) (a ∷ b ∷ c ∷ d ∷ e ∷ bs) buf l (ha, (hb, (hc, (hd, (he, hs))))) =
    let (buf', encoded) = encode_block buf a b c d e bs ha hb hc hd he in
    let (symbols, size) = encode-symbols k bs buf' (omega (arith, l)) hs in
    rw encoded (
      (
        symbol_of (a / 8) (omega arith),
        (
          symbol_of (a % 8 * 4 + b / 64) (omega arith),
          (
            symbol_of (b / 2 % 32) (omega arith),
            (
              symbol_of (b % 2 * 16 + c / 16) (omega arith),
              (
                symbol_of (c % 16 * 2 + d / 128) (omega arith),
                (
                  symbol_of (d / 4 % 32) (omega arith),
                  (
                    symbol_of (d % 4 * 8 + e / 32) (omega arith),
                    (symbol_of (e % 32) (omega arith), symbols),
                  ),
                ),
              ),
            ),
          ),
        ),
      ),
      omega (arith, size),
    )

module _ (bs : Bytes) (size : length bs ≡ 32) (h : All IsByte bs) where
  pub decode-encode_crockford : decode_crockford (encode_crockford bs) ≡ ok bs
  unfolding decode_crockford encode_crockford
  decode-encode_crockford = decode-encode_blocks 6 bs 0 0 size h

  pub encode_crockford-symbols :
      All IsSymbol (encode_crockford bs) × (length (encode_crockford bs) ≡ 52)
  unfolding encode_crockford
  encode_crockford-symbols = encode-symbols 6 bs 0 size h
