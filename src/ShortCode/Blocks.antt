-- ===== src/ShortCode/Blocks.antt =====
-- Five bytes are eight symbols of src/contacts.rs, whatever the buffer held before.
use link_p2p.Prelude.{
  ℕ, ◌+◌, ◌*◌, ◌/◌, ◌%◌, ◌<◌, ◌≡◌, refl, sym, some, [], ◌∷◌, arith, bit_and, bit_or, All, below,
  All_below-at,
}
use link_p2p.Bits.{and_0xff, bit_and-ones, bit_or-double, double}
use link_p2p.Net.{Bytes}
use link_p2p.Outcome.{Result, ok, err}
use link_p2p.ShortCode.{
  Text, symbol, push_symbols, encode_from, decode_from, crockford, position, to_ascii_uppercase,
  prepend, push_byte,
}

and_0x1f : (a : ℕ) → bit_and a 0x1f ≡ a % 32
and_0x1f a = omega (arith, bit_and-ones 5 a)

-- A byte shifted into the buffer.
shift8 : (buf b : ℕ) → b < 256 → bit_or (buf * 256 % 4294967296) b ≡ buf % 16777216 * 256 + b
shift8 buf b h =
    let e : buf * 256 % 4294967296 ≡ buf % 16777216 * 256 = omega arith in
    let d : double 8 (buf % 16777216) ≡ buf % 16777216 * 256 = omega arith in
    rw (e, sym d) (bit_or-double 8 (buf % 16777216) b (omega arith))

shift5 : (buf v : ℕ) → v < 32 → bit_or (buf * 32 % 4294967296) v ≡ buf % 134217728 * 32 + v
shift5 buf v h =
    let e : buf * 32 % 4294967296 ≡ buf % 134217728 * 32 = omega arith in
    let d : double 5 (buf % 134217728) ≡ buf % 134217728 * 32 = omega arith in
    rw (e, sym d) (bit_or-double 5 (buf % 134217728) v (omega arith))

-- The buffer after a byte.
abbrev pushed : ℕ → ℕ → ℕ
pushed buf b = bit_or (buf * 256 % 4294967296) b

pub encode_block :
    (buf b0 b1 b2 b3 b4 : ℕ) (bs : Bytes)
    → b0 < 256
    → b1 < 256
    → b2 < 256
    → b3 < 256
    → b4 < 256
    → (next : ℕ) × (encode_from buf 0 (b0 ∷ b1 ∷ b2 ∷ b3 ∷ b4 ∷ bs)
        ≡ symbol (b0 / 8)
          ∷ symbol (b0 % 8 * 4 + b1 / 64)
          ∷ symbol (b1 / 2 % 32)
          ∷ symbol (b1 % 2 * 16 + b2 / 16)
          ∷ symbol (b2 % 16 * 2 + b3 / 128)
          ∷ symbol (b3 / 4 % 32)
          ∷ symbol (b3 % 4 * 8 + b4 / 32)
          ∷ symbol (b4 % 32)
          ∷ encode_from next 0 bs)
unfolding encode_from push_symbols
encode_block buf b0 b1 b2 b3 b4 bs h0 h1 h2 h3 h4 =
    let x0 : ℕ = pushed buf b0 in
    let x1 : ℕ = pushed x0 b1 in
    let x2 : ℕ = pushed x1 b2 in
    let x3 : ℕ = pushed x2 b3 in
    let x4 : ℕ = pushed x3 b4 in
    let y0 = shift8 buf b0 h0 in
    let y1 = shift8 x0 b1 h1 in
    let y2 = shift8 x1 b2 h2 in
    let y3 = shift8 x2 b3 h3 in
    let y4 = shift8 x3 b4 h4 in
    let e0 : bit_and (x0 / 8) 0x1f ≡ b0 / 8 = omega (arith, and_0x1f (x0 / 8)) in
    let e1 : bit_and (x1 / 64) 0x1f ≡ b0 % 8 * 4 + b1 / 64 = omega (arith, and_0x1f (x1 / 64)) in
    let e2 : bit_and (x1 / 2) 0x1f ≡ b1 / 2 % 32 = omega (arith, and_0x1f (x1 / 2)) in
    let e3 : bit_and (x2 / 16) 0x1f ≡ b1 % 2 * 16 + b2 / 16 = omega (arith, and_0x1f (x2 / 16)) in
    let e4 : bit_and (x3 / 128) 0x1f ≡ b2 % 16 * 2 + b3 / 128 =
      omega (arith, and_0x1f (x3 / 128)) in
    let e5 : bit_and (x3 / 4) 0x1f ≡ b3 / 4 % 32 = omega (arith, and_0x1f (x3 / 4)) in
    let e6 : bit_and (x4 / 32) 0x1f ≡ b3 % 4 * 8 + b4 / 32 = omega (arith, and_0x1f (x4 / 32)) in
    let e7 : bit_and (x4 / 1) 0x1f ≡ b4 % 32 = omega (arith, and_0x1f (x4 / 1)) in
    (x4, rw (e0, e1, e2, e3, e4, e5, e6, e7) refl)

-- The last two bytes of 32: four symbols, the last with four bits of padding.
pub encode_tail :
    (buf b0 b1 : ℕ)
    → b0 < 256
    → b1 < 256
    → encode_from buf 0 (b0 ∷ b1 ∷ [])
      ≡ symbol (b0 / 8)
        ∷ symbol (b0 % 8 * 4 + b1 / 64)
        ∷ symbol (b1 / 2 % 32)
        ∷ symbol (b1 % 2 * 16)
        ∷ []
unfolding encode_from push_symbols
encode_tail buf b0 b1 h0 h1 =
    let x0 : ℕ = pushed buf b0 in
    let x1 : ℕ = pushed x0 b1 in
    let y0 = shift8 buf b0 h0 in
    let y1 = shift8 x0 b1 h1 in
    let e0 : bit_and (x0 / 8) 0x1f ≡ b0 / 8 = omega (arith, and_0x1f (x0 / 8)) in
    let e1 : bit_and (x1 / 64) 0x1f ≡ b0 % 8 * 4 + b1 / 64 = omega (arith, and_0x1f (x1 / 64)) in
    let e2 : bit_and (x1 / 2) 0x1f ≡ b1 / 2 % 32 = omega (arith, and_0x1f (x1 / 2)) in
    let e3 : bit_and (x1 * 16 % 4294967296) 0x1f ≡ b1 % 2 * 16 =
      omega (arith, and_0x1f (x1 * 16 % 4294967296)) in
    rw (e0, e1, e2, e3) refl

symbols_found :
    All (λ j. position crockford (to_ascii_uppercase (symbol j) % 256) ≡ some j) (below 32)
unfolding position symbol
symbols_found = ground arith

position-symbol :
    (i : ℕ) → i < 32 → position crockford (to_ascii_uppercase (symbol i) % 256) ≡ some i
position-symbol i h =
    All_below-at (λ j. position crockford (to_ascii_uppercase (symbol j) % 256) ≡ some j) 32 i
      symbols_found h

-- The buffer after a symbol of value `v`.
abbrev taken : ℕ → ℕ → ℕ
taken buf v = bit_or (buf * 32 % 4294967296) v

decode_symbol :
    (buf nbits v : ℕ) (cs : Text)
    → v < 32
    → decode_from buf nbits (symbol v ∷ cs)
      ≡ prepend
          (push_byte (taken buf v) (nbits + 5)).0
          (decode_from (taken buf v) (push_byte (taken buf v) (nbits + 5)).1 cs)
unfolding decode_from
decode_symbol buf nbits v cs h = rw (decode_from, position-symbol v h) refl

decode_end : (buf nbits : ℕ) → decode_from buf nbits [] ≡ ok []
unfolding decode_from
decode_end buf nbits = refl

prepend_five :
    (a b c d e : ℕ) (r : Result Bytes)
    → prepend [] (
        prepend (a ∷ []) (
          prepend [] (
            prepend
              (b ∷ [])
              (prepend (c ∷ []) (prepend [] (prepend (d ∷ []) (prepend (e ∷ []) r)))))))
      ≡ prepend (a ∷ b ∷ c ∷ d ∷ e ∷ []) r
prepend_five a b c d e (ok bs) = refl
prepend_five a b c d e (err x) = refl

-- Eight symbols are five bytes.
pub decode_block :
    (buf v0 v1 v2 v3 v4 v5 v6 v7 : ℕ) (cs : Text)
    → v0 < 32
    → v1 < 32
    → v2 < 32
    → v3 < 32
    → v4 < 32
    → v5 < 32
    → v6 < 32
    → v7 < 32
    → (next : ℕ) × (decode_from buf 0 (
          symbol v0
          ∷ symbol v1
          ∷ symbol v2
          ∷ symbol v3
          ∷ symbol v4
          ∷ symbol v5
          ∷ symbol v6
          ∷ symbol v7
          ∷ cs)
        ≡ prepend
            ((v0 * 8 + v1 / 4)
              ∷ (v1 % 4 * 64 + v2 * 2 + v3 / 16)
              ∷ (v3 % 16 * 16 + v4 / 2)
              ∷ (v4 % 2 * 128 + v5 * 4 + v6 / 8)
              ∷ (v6 % 8 * 32 + v7)
              ∷ [])
            (decode_from next 0 cs))
unfolding push_byte
decode_block buf v0 v1 v2 v3 v4 v5 v6 v7 cs h0 h1 h2 h3 h4 h5 h6 h7 =
    let x0 : ℕ = taken buf v0 in
    let x1 : ℕ = taken x0 v1 in
    let x2 : ℕ = taken x1 v2 in
    let x3 : ℕ = taken x2 v3 in
    let x4 : ℕ = taken x3 v4 in
    let x5 : ℕ = taken x4 v5 in
    let x6 : ℕ = taken x5 v6 in
    let x7 : ℕ = taken x6 v7 in
    let y0 = shift5 buf v0 h0 in
    let y1 = shift5 x0 v1 h1 in
    let y2 = shift5 x1 v2 h2 in
    let y3 = shift5 x2 v3 h3 in
    let y4 = shift5 x3 v4 h4 in
    let y5 = shift5 x4 v5 h5 in
    let y6 = shift5 x5 v6 h6 in
    let y7 = shift5 x6 v7 h7 in
    let e1 : bit_and (x1 / 4) 0xff ≡ v0 * 8 + v1 / 4 = omega (arith, and_0xff (x1 / 4)) in
    let e3 : bit_and (x3 / 16) 0xff ≡ v1 % 4 * 64 + v2 * 2 + v3 / 16 =
      omega (arith, and_0xff (x3 / 16)) in
    let e4 : bit_and (x4 / 2) 0xff ≡ v3 % 16 * 16 + v4 / 2 = omega (arith, and_0xff (x4 / 2)) in
    let e6 : bit_and (x6 / 8) 0xff ≡ v4 % 2 * 128 + v5 * 4 + v6 / 8 =
      omega (arith, and_0xff (x6 / 8)) in
    let e7 : bit_and (x7 / 1) 0xff ≡ v6 % 8 * 32 + v7 = omega (arith, and_0xff (x7 / 1)) in
    (
      x7,
      rw
          (
            decode_symbol buf 0 v0
                (symbol v1
                  ∷ symbol v2
                  ∷ symbol v3
                  ∷ symbol v4
                  ∷ symbol v5
                  ∷ symbol v6
                  ∷ symbol v7
                  ∷ cs)
                h0,
            decode_symbol x0 5 v1
                (symbol v2 ∷ symbol v3 ∷ symbol v4 ∷ symbol v5 ∷ symbol v6 ∷ symbol v7 ∷ cs) h1,
            decode_symbol x1 2 v2 (symbol v3 ∷ symbol v4 ∷ symbol v5 ∷ symbol v6 ∷ symbol v7 ∷ cs)
                h2,
            decode_symbol x2 7 v3 (symbol v4 ∷ symbol v5 ∷ symbol v6 ∷ symbol v7 ∷ cs) h3,
            decode_symbol x3 4 v4 (symbol v5 ∷ symbol v6 ∷ symbol v7 ∷ cs) h4,
            decode_symbol x4 1 v5 (symbol v6 ∷ symbol v7 ∷ cs) h5,
            decode_symbol x5 6 v6 (symbol v7 ∷ cs) h6,
            decode_symbol x6 3 v7 cs h7,
            e1,
            e3,
            e4,
            e6,
            e7,
          )
          (prepend_five _ _ _ _ _ (decode_from x7 0 cs)),
    )

pub decode_tail :
    (buf v0 v1 v2 v3 : ℕ)
    → v0 < 32
    → v1 < 32
    → v2 < 32
    → v3 < 32
    → decode_from buf 0 (symbol v0 ∷ symbol v1 ∷ symbol v2 ∷ symbol v3 ∷ [])
      ≡ ok ((v0 * 8 + v1 / 4) ∷ (v1 % 4 * 64 + v2 * 2 + v3 / 16) ∷ [])
unfolding push_byte
decode_tail buf v0 v1 v2 v3 h0 h1 h2 h3 =
    let x0 : ℕ = taken buf v0 in
    let x1 : ℕ = taken x0 v1 in
    let x2 : ℕ = taken x1 v2 in
    let x3 : ℕ = taken x2 v3 in
    let y0 = shift5 buf v0 h0 in
    let y1 = shift5 x0 v1 h1 in
    let y2 = shift5 x1 v2 h2 in
    let y3 = shift5 x2 v3 h3 in
    let e1 : bit_and (x1 / 4) 0xff ≡ v0 * 8 + v1 / 4 = omega (arith, and_0xff (x1 / 4)) in
    let e3 : bit_and (x3 / 16) 0xff ≡ v1 % 4 * 64 + v2 * 2 + v3 / 16 =
      omega (arith, and_0xff (x3 / 16)) in
    rw
      (
        decode_symbol buf 0 v0 (symbol v1 ∷ symbol v2 ∷ symbol v3 ∷ []) h0,
        decode_symbol x0 5 v1 (symbol v2 ∷ symbol v3 ∷ []) h1,
        decode_symbol x1 2 v2 (symbol v3 ∷ []) h2,
        decode_symbol x2 7 v3 [] h3,
        decode_end x3 4,
        e1,
        e3,
      )
      refl
