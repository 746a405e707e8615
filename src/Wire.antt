-- ===== src/Wire.antt =====
-- Byte streams as the program uses them. A stream is the list of bytes that the other side sends
-- before it closes. What tokio's `AsyncReadExt` does with it is a parameter, with the documented
-- behaviour of `read_exact`, `read_u8` and `read_u16` as its laws.
pub mod Slice
use link_p2p.Prelude.{
  ℕ, ◌+◌, ◌*◌, ◌/◌, ◌%◌, ◌<◌, ◌≡◌, Option, none, some, [], ◌∷◌, ◌++◌, length, length-take, take,
  drop, take-append-drop, ◌≤◌, arith,
}
use link_p2p.Net.{Bytes}
use link_p2p.Outcome.{Msg, io_error, Error, Result, ok, err, root, context}

-- `none` is an I/O error, such as the end of the stream.
pub record Reader : Type 0 where
  pub read_exact : ℕ → Bytes → Option (Bytes × Bytes)
  pub read_u8 : Bytes → Option (ℕ × Bytes)
  pub read_u16 : Bytes → Option (ℕ × Bytes)
  pub fills : (xs rest : Bytes) → read_exact (length xs) (xs ++ rest) ≡ some (xs, rest)
  pub short : (n : ℕ) (s : Bytes) → length s < n → read_exact n s ≡ none
  pub u8_next : (b : ℕ) (rest : Bytes) → read_u8 (b ∷ rest) ≡ some (b, rest)
  pub u8_end : read_u8 [] ≡ none
  pub u16_next : (hi lo : ℕ) (rest : Bytes) → read_u16 (hi ∷ lo ∷ rest) ≡ some (hi * 256 + lo, rest)
  pub u16_short : (s : Bytes) → length s < 2 → read_u16 s ≡ none

-- An operation that reads from a stream and may fail.
abbrev pub Read : Type 0 → Type 0
Read A = Bytes → Result (A × Bytes)

infixl 5 ◌>>=◌ ◌>>◌
abbrev pub ◌>>=◌ : {A B : Type 0} → Read A → (A → Read B) → Read B
◌>>=◌ m f s = elim (m s) [ ok (a, s') ↦ f a s' | err e ↦ err e ]

abbrev pub ◌>>◌ : {A B : Type 0} → Read A → Read B → Read B
m >> k = m >>= λ _. k

abbrev pub pure : {A : Type 0} → A → Read A
pure a s = ok (a, s)

abbrev pub fail : {A : Type 0} → Error → Read A
fail e s = err e

abbrev pub lift : {A : Type 0} → Result A → Read A
lift (ok a) s = ok (a, s)
lift (err e) s = err e

-- `r.….await?` and `r.….await.context(m)?`.
abbrev pub io : {A : Type 0} → Option (A × Bytes) → Result (A × Bytes)
io (some p) = ok p
io none = err (root io_error)

abbrev pub io_context : {A : Type 0} → Msg → Option (A × Bytes) → Result (A × Bytes)
io_context m (some p) = ok p
io_context m none = err (context m (root io_error))

-- `u16::to_be_bytes`, `u32::to_be_bytes` and `u32::from_be_bytes`.
abbrev pub be16 : ℕ → Bytes
be16 n = n / 256 % 256 ∷ n % 256 ∷ []

abbrev pub be32 : ℕ → Bytes
be32 n = n / 16777216 % 256 ∷ n / 65536 % 256 ∷ n / 256 % 256 ∷ n % 256 ∷ []

abbrev pub u32_from_be : ℕ → ℕ → ℕ → ℕ → ℕ
u32_from_be a b c d = a * 16777216 + b * 65536 + c * 256 + d

pub u16-be16 : (n : ℕ) → n < 65536 → n / 256 % 256 * 256 + n % 256 ≡ n
u16-be16 n h = omega arith

pub u32-be32 :
    (n : ℕ)
    → n < 4294967296
    → u32_from_be (n / 16777216 % 256) (n / 65536 % 256) (n / 256 % 256) (n % 256) ≡ n
u32-be32 n h = omega arith

-- `read_exact` cuts the stream, or fails where it is too short.
pub read_exact-take :
    (r : Reader) (n : ℕ) (s : Bytes) → n ≤ length s → r.read_exact n s ≡ some (take n s, drop n s)
read_exact-take r n s h =
    ground (arith, r.fills (take n s) (drop n s), take-append-drop n s, length-take n s)
