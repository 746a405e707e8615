-- ===== src/Wire/Slice.antt =====
-- A reader over bytes in memory, as the program's own tests use one: it meets the laws of `Reader`.
use link_p2p.Prelude.{
  ℕ, zero, suc, ◌+◌, ◌*◌, ◌<◌, ◌≡◌, refl, Option, none, some, [], ◌∷◌, ◌++◌, length, arith,
}
use link_p2p.Net.{Bytes}
use link_p2p.Wire.{Reader}

cons_first : ℕ → Option (Bytes × Bytes) → Option (Bytes × Bytes)
cons_first b none = none
cons_first b (some (xs, rest)) = some (b ∷ xs, rest)

unfoldable pub slice_exact : ℕ → Bytes → Option (Bytes × Bytes)
unfolding cons_first
slice_exact zero s = some ([], s)
slice_exact (suc n) [] = none
slice_exact (suc n) (b ∷ s) = cons_first b (slice_exact n s)

unfoldable pub slice_u8 : Bytes → Option (ℕ × Bytes)
slice_u8 [] = none
slice_u8 (b ∷ s) = some (b, s)

unfoldable pub slice_u16 : Bytes → Option (ℕ × Bytes)
slice_u16 (hi ∷ lo ∷ s) = some (hi * 256 + lo, s)
slice_u16 _ = none

pub slice_fills : (xs rest : Bytes) → slice_exact (length xs) (xs ++ rest) ≡ some (xs, rest)
unfolding slice_exact
slice_fills [] rest = refl
slice_fills (x ∷ xs) rest = rw (slice_fills xs rest)

pub slice_short : (n : ℕ) (s : Bytes) → length s < n → slice_exact n s ≡ none
unfolding slice_exact
slice_short zero s h = absurd (omega arith)
slice_short (suc n) [] h = refl
slice_short (suc n) (b ∷ s) h = rw (slice_short n s (omega arith))

pub slice_u8_next : (b : ℕ) (rest : Bytes) → slice_u8 (b ∷ rest) ≡ some (b, rest)
unfolding slice_u8
slice_u8_next b rest = refl

pub slice_u8_end : slice_u8 [] ≡ none
unfolding slice_u8
slice_u8_end = refl

pub slice_u16_next :
    (hi lo : ℕ) (rest : Bytes) → slice_u16 (hi ∷ lo ∷ rest) ≡ some (hi * 256 + lo, rest)
unfolding slice_u16
slice_u16_next hi lo rest = refl

pub slice_u16_short : (s : Bytes) → length s < 2 → slice_u16 s ≡ none
unfolding slice_u16
slice_u16_short [] h = refl
slice_u16_short (a ∷ []) h = refl
slice_u16_short (a ∷ b ∷ s) h = absurd (omega arith)

unfoldable pub slice_reader : Reader
unfolding slice_exact slice_u8 slice_u16
slice_reader = record {
  read_exact = slice_exact;
  read_u8 = slice_u8;
  read_u16 = slice_u16;
  fills = slice_fills;
  short = slice_short;
  u8_next = slice_u8_next;
  u8_end = slice_u8_end;
  u16_next = slice_u16_next;
  u16_short = slice_u16_short;
}
