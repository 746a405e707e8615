-- ===== src/Tun/Packet/Checksum.antt =====
-- The Internet checksum of src/tun/mod.rs: no overflow, and a receiver's check of a packet that
-- carries it.
use link_p2p.Prelude.{
  ℕ, zero, suc, ◌+◌, ◌-◌, ◌*◌, ◌/◌, ◌%◌, ◌≤◌, ◌<◌, ◌≡◌, ◌∙◌, [], ◌∷◌, ◌++◌, length, All, min, arith,
  bit_and,
}
use native.Mathlib.Nat.{zero-add}
use link_p2p.Bits.{and_0xffff}
use link_p2p.Net.{Bytes, IsByte}
use link_p2p.Tun.Packet.{add_words, fold_carry, inet_checksum}

-- The sum of the big-endian words, with no bound on it.
unfoldable pub words : Bytes → ℕ
words [] = 0
words (b ∷ []) = b * 256
words (a ∷ b ∷ rest) = a * 256 + b + words rest

pub words-le : (bs : Bytes) → All IsByte bs → words bs ≤ 65535 * length bs
unfolding words
words-le [] h = omega arith
words-le (b ∷ []) h = omega arith
words-le (a ∷ b ∷ rest) (ha, (hb, hr)) = omega (arith, words-le rest hr)

pub add_words-words :
    (sum : ℕ) (bs : Bytes) → sum + words bs < 4294967296 → add_words sum bs ≡ sum + words bs
unfolding add_words words
add_words-words sum [] h = omega arith
add_words-words sum (b ∷ []) h = omega arith
add_words-words sum (a ∷ b ∷ rest) h =
    omega (arith, add_words-words ((sum + (a * 256 + b)) % 4294967296) rest (omega arith))

pub words-append :
    (k : ℕ) (xs ys : Bytes) → length xs ≡ k + k → words (xs ++ ys) ≡ words xs + words ys
unfolding words
words-append zero [] ys h = omega arith
words-append zero (a ∷ xs) ys h = absurd (omega arith)
words-append (suc k) [] ys h = absurd (omega arith)
words-append (suc k) (a ∷ []) ys h = absurd (omega arith)
words-append (suc k) (a ∷ b ∷ xs) ys h = omega (arith, words-append k xs ys (omega arith))

-- Every u32 is folded within the three rounds, to a 16-bit number with the same remainder by 65535,
-- which is 0 only for 0.
pub fold_carry_lem :
    (s : ℕ)
    → s < 4294967296
    → (fold_carry 3 s ≤ 65535)
      × (fold_carry 3 s % 65535 ≡ s % 65535)
      × (min s 1 ≤ fold_carry 3 s)
      × (fold_carry 3 s ≤ s)
unfolding fold_carry
fold_carry_lem s h =
    let s1 : ℕ = bit_and s 0xffff + s / 65536 in
    let s2 : ℕ = bit_and s1 0xffff + s1 / 65536 in
    ground (arith, and_0xffff s, and_0xffff s1, and_0xffff s2)

pub inet_checksum_lem :
    (bs : Bytes) → words bs < 4294967296 → inet_checksum bs ≡ 65535 - fold_carry 3 (words bs)
unfolding inet_checksum
inet_checksum_lem bs h =
    let e : add_words 0 bs ≡ words bs = add_words-words 0 bs (omega arith) ∙ zero-add (words bs) in
    rw e (omega (arith, fold_carry_lem (words bs) h))

-- With the checksum of `blank` added to its words, a message sums to 0.
pub inet_checksum-filled :
    (blank filled : Bytes)
    → words blank < 4294836225
    → words filled ≡ words blank + inet_checksum blank
    → inet_checksum filled ≡ 0
inet_checksum-filled blank filled h e = omega (
  arith,
  inet_checksum_lem blank (omega arith),
  inet_checksum_lem filled (omega (arith, inet_checksum_lem blank (omega arith))),
  fold_carry_lem (words blank) (omega arith),
  fold_carry_lem (words filled) (omega (arith, inet_checksum_lem blank (omega arith))),
)
