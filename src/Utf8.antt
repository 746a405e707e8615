-- ===== src/Utf8.antt =====
-- `std::str::from_utf8`: which byte strings are UTF-8.
use link_p2p.Prelude.{ℕ, zero, suc, Bool, true, false, ◌&&◌, [], ◌∷◌, leb, ltb, ◌==◌, if◌then◌else◌}
use link_p2p.Net.{Bytes}

-- What must follow a lead byte: how many continuation bytes, and the range of the first of them.
-- `none` marks a byte that starts no character.
pub data Lead : Type 0 where
  bad : Lead
  follow : ℕ → ℕ → ℕ → Lead

unfoldable pub lead : ℕ → Lead
lead b =
    if ltb b 0x80
    then follow 0 0 0
    else if leb 0xc2 b && leb b 0xdf
    then follow 1 0x80 0xbf
    else if b == 0xe0
    then follow 2 0xa0 0xbf
    else if b == 0xed
    then follow 2 0x80 0x9f
    else if leb 0xe1 b && leb b 0xef
    then follow 2 0x80 0xbf
    else if b == 0xf0
    then follow 3 0x90 0xbf
    else if leb 0xf1 b && leb b 0xf3
    then follow 3 0x80 0xbf
    else if b == 0xf4
    then follow 3 0x80 0x8f
    else bad

-- `need` continuation bytes are missing, the next of them between `lo` and `hi`.
unfoldable pub utf8_from : Lead → Bytes → Bool
unfolding lead
utf8_from bad bs = false
utf8_from (follow zero lo hi) [] = true
utf8_from (follow (suc n) lo hi) [] = false
utf8_from (follow zero lo hi) (b ∷ bs) = utf8_from (lead b) bs
utf8_from (follow (suc n) lo hi) (b ∷ bs) =
    leb lo b && leb b hi && utf8_from (follow n 0x80 0xbf) bs

unfoldable pub is_utf8 : Bytes → Bool
unfolding utf8_from
is_utf8 bs = utf8_from (follow 0 0 0) bs
