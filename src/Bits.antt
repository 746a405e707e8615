-- ===== src/Bits.antt =====
-- Masks and shifts of machine words as arithmetic, for the mask tests of ssrf.rs, tun/mod.rs and
-- tun_roster.rs.
use Prim.Native.Nat.{digits, bit_and-bitwise, bit_or-bitwise}
use link_p2p.Prelude.{
  ℕ, zero, suc, ◌+◌, ◌*◌, ◌/◌, ◌%◌, ◌≤◌, ◌<◌, min, max, bit_and, bit_or, ◌≡◌, refl, ap, arith,
}

-- The native `bit_and` stands for a recursion on digits with fuel; more fuel changes nothing.
module _ (z : ℕ → ℕ) (f : ℕ → ℕ → ℕ) where
  more_fuel : (n m a b : ℕ) → a ≤ n → a ≤ m → digits z f n a b ≡ digits z f m a b
  more_fuel zero zero zero b p q = refl
  more_fuel zero zero (suc a) b p q = absurd (omega arith)
  more_fuel zero (suc m) zero b p q = refl
  more_fuel zero (suc m) (suc a) b p q = absurd (omega arith)
  more_fuel (suc n) zero zero b p q = refl
  more_fuel (suc n) zero (suc a) b p q = absurd (omega arith)
  more_fuel (suc n) (suc m) zero b p q = refl
  more_fuel (suc n) (suc m) (suc a) b p q =
      omega (arith, more_fuel n m (suc a / 2) (b / 2) (omega arith) (omega arith))

bit_and-zero_left : (b : ℕ) → bit_and 0 b ≡ 0
bit_and-zero_left b = bit_and-bitwise 0 b

bit_and-halves : (a b : ℕ) → bit_and a b ≡ bit_and (a / 2) (b / 2) * 2 + min (a % 2) (b % 2)
bit_and-halves zero b = omega (arith, bit_and-zero_left b, bit_and-zero_left (b / 2))
bit_and-halves (suc a) b = omega (
  arith,
  bit_and-bitwise (suc a) b,
  bit_and-bitwise (suc a / 2) (b / 2),
  more_fuel (λ y. zero) min a (suc a / 2) (suc a / 2) (b / 2) (omega arith) (omega arith),
)

bit_or-zero_left : (b : ℕ) → bit_or 0 b ≡ b
bit_or-zero_left b = bit_or-bitwise 0 b

bit_or-halves : (a b : ℕ) → bit_or a b ≡ bit_or (a / 2) (b / 2) * 2 + max (a % 2) (b % 2)
bit_or-halves zero b = omega (arith, bit_or-zero_left b, bit_or-zero_left (b / 2))
bit_or-halves (suc a) b = omega (
  arith,
  bit_or-bitwise (suc a) b,
  bit_or-bitwise (suc a / 2) (b / 2),
  more_fuel (λ y. y) max a (suc a / 2) (suc a / 2) (b / 2) (omega arith) (omega arith),
)

bit_or-zero_below : (n a : ℕ) → a ≤ n → bit_or a 0 ≡ a
bit_or-zero_below n zero h = refl
bit_or-zero_below zero (suc a) h = absurd (omega arith)
bit_or-zero_below (suc n) (suc a) h =
    omega (arith, bit_or-halves (suc a) 0, bit_or-zero_below n (suc a / 2) (omega arith))

bit_and-zero_below : (n a : ℕ) → a ≤ n → bit_and a 0 ≡ 0
bit_and-zero_below n zero h = refl
bit_and-zero_below zero (suc a) h = absurd (omega arith)
bit_and-zero_below (suc n) (suc a) h =
    omega (arith, bit_and-halves (suc a) 0, bit_and-zero_below n (suc a / 2) (omega arith))

pub bit_and-zero : (a : ℕ) → bit_and a 0 ≡ 0
bit_and-zero a = bit_and-zero_below a a (omega arith)

-- 2 ^ k - 1, and the number shifted right by k, both by recursion on k.
abbrev pub ones : ℕ → ℕ
ones zero = 0
ones (suc k) = ones k * 2 + 1

abbrev pub halve : ℕ → ℕ → ℕ
halve zero a = a
halve (suc k) a = halve k (a / 2)

abbrev pub double : ℕ → ℕ → ℕ
double zero a = a
double (suc k) a = double k a * 2

abbrev pub low : ℕ → ℕ → ℕ
low zero a = 0
low (suc k) a = low k (a / 2) * 2 + a % 2

-- A mask shifted left by `k` looks at the number shifted right by `k`.
pub bit_and-double : (k a m : ℕ) → bit_and a (double k m) ≡ double k (bit_and (halve k a) m)
bit_and-double zero a m = refl
bit_and-double (suc k) a m = omega (
  arith,
  bit_and-halves a (double k m * 2),
  bit_and-double k (a / 2) m,
  ap (λ (t : ℕ). bit_and (a / 2) t) (let e : double k m * 2 / 2 ≡ double k m = omega arith in e),
)

pub bit_and-ones : (k a : ℕ) → bit_and a (ones k) ≡ low k a
bit_and-ones zero a = bit_and-zero a
bit_and-ones (suc k) a = omega (
  arith,
  bit_and-halves a (ones k * 2 + 1),
  bit_and-ones k (a / 2),
  ap (λ (t : ℕ). bit_and (a / 2) t) (let e : (ones k * 2 + 1) / 2 ≡ ones k = omega arith in e),
)

-- `|` of a number shifted left by `k` and one below 2 ^ k is their sum.
pub bit_or-double : (k q r : ℕ) → r ≤ ones k → bit_or (double k q) r ≡ double k q + r
bit_or-double zero q zero h = omega (arith, bit_or-zero_below q q (omega arith))
bit_or-double zero q (suc r) h = absurd (omega arith)
bit_or-double (suc k) q r h = omega (
  arith,
  bit_or-halves (double k q * 2) r,
  bit_or-double k q (r / 2) (omega arith),
  ap (λ (t : ℕ). bit_or t (r / 2)) (let e : double k q * 2 / 2 ≡ double k q = omega arith in e),
)

-- The masks that the sources write.
pub and_0x0f : (a : ℕ) → bit_and a 0x0f ≡ a % 16
and_0x0f a = omega (arith, bit_and-ones 4 a)

pub and_0x01 : (a : ℕ) → bit_and a 0x01 ≡ a % 2
and_0x01 a = omega (arith, bit_and-ones 1 a)

pub and_0xff : (a : ℕ) → bit_and a 0xff ≡ a % 256
and_0xff a = omega (arith, bit_and-ones 8 a)

pub and_0xffff : (a : ℕ) → bit_and a 0xffff ≡ a % 65536
and_0xffff a = omega (arith, bit_and-ones 16 a)

pub and_0xfe00 : (a : ℕ) → a < 65536 → bit_and a 0xfe00 ≡ a / 512 * 512
and_0xfe00 a h = omega (arith, bit_and-double 9 a 127, bit_and-ones 7 (halve 9 a))

pub and_0xffc0 : (a : ℕ) → a < 65536 → bit_and a 0xffc0 ≡ a / 64 * 64
and_0xffc0 a h = omega (arith, bit_and-double 6 a 1023, bit_and-ones 10 (halve 6 a))

pub and_0xffffff00 : (a : ℕ) → a < 4294967296 → bit_and a 0xffff_ff00 ≡ a / 256 * 256
and_0xffffff00 a h = omega (arith, bit_and-double 8 a 0xffffff, bit_and-ones 24 (halve 8 a))

pub and_0xffc00000 : (a : ℕ) → a < 4294967296 → bit_and a 0xffc0_0000 ≡ a / 4194304 * 4194304
and_0xffc00000 a h = omega (arith, bit_and-double 22 a 1023, bit_and-ones 10 (halve 22 a))

pub and_0xffff0000 : (a : ℕ) → a < 4294967296 → bit_and a 0xffff_0000 ≡ a / 65536 * 65536
and_0xffff0000 a h = omega (arith, bit_and-double 16 a 0xffff, bit_and-ones 16 (halve 16 a))

pub or_0xac180000 : (r : ℕ) → r < 65536 → bit_or 0xac18_0000 r ≡ 0xac18_0000 + r
or_0xac180000 r h = bit_or-double 16 0xac18 r (omega arith)
