-- ===== src/Endpoint/Keys.antt =====
-- Endpoint ids that are numbers below 256 written in 32 bytes: the laws of `Endpoints` can be met.
use link_p2p.Prelude.{
  ℕ, ◌<◌, All, ◌≡◌, refl, ◌≢◌, true, false, Option, none, some, [], ◌∷◌, length, ltb, ◌==◌, arith,
  ==_iff,
}
use link_p2p.Net.{Bytes, IsByte}
use link_p2p.Endpoint.{Endpoints}

pub key_bytes : ℕ → Bytes
key_bytes n =
    0 ∷ 0 ∷ 0 ∷ 0 ∷ 0 ∷ 0 ∷ 0 ∷ 0 ∷ 0 ∷ 0 ∷ 0 ∷ 0 ∷ 0 ∷ 0 ∷ 0 ∷ 0 ∷ 0 ∷ 0 ∷ 0 ∷ 0 ∷ 0 ∷ 0 ∷ 0 ∷ 0
    ∷ 0 ∷ 0 ∷ 0 ∷ 0 ∷ 0 ∷ 0 ∷ 0 ∷ n ∷ []

pub last_byte : Bytes → Option ℕ
last_byte [] = none
last_byte (b ∷ []) = some b
last_byte (b ∷ c ∷ bs) = last_byte (c ∷ bs)

pub length-key_bytes : (n : ℕ) → length (key_bytes n) ≡ 32
unfolding key_bytes
length-key_bytes n = refl

pub last_byte-key_bytes : (n : ℕ) → last_byte (key_bytes n) ≡ some n
unfolding key_bytes last_byte
last_byte-key_bytes n = refl

pub ltb_self : (a : ℕ) → ltb a a ≡ false
ltb_self a = ground arith

pub ltb_other : (a b : ℕ) → a ≢ b → ltb a b ≡ true → ltb b a ≡ false
ltb_other a b ne h = ground arith

pub ltb_total : (a b : ℕ) → a ≢ b → ltb a b ≡ false → ltb b a ≡ true
ltb_total a b ne h = ground arith

unfoldable pub number_keys : Endpoints ℕ
unfolding key_bytes last_byte
number_keys = record {
  as_bytes = key_bytes;
  from_bytes = last_byte;
  same = λ a b. a == b;
  less = ltb;
  as_bytes_length = length-key_bytes;
  from_as_bytes = last_byte-key_bytes;
  same_iff = ==_iff;
  less_self = ltb_self;
  less_other = ltb_other;
  less_total = ltb_total;
}

pub number_bytes : (n : ℕ) → n < 256 → All IsByte (number_keys.as_bytes n)
unfolding number_keys key_bytes
number_bytes n h = ground (arith, h)
