-- ===== src/Contacts/Panics.antt =====
-- A token of src/contacts.rs whose last character takes more than one byte.
use link_p2p.Prelude.{
  ℕ, ◌+◌, ◌-◌, ◌<◌, ◌≤◌, ◌≡◌, refl, none, [], ◌∷◌, ◌++◌, length, arith, length-append,
}
use link_p2p.Endpoint.{Endpoints}
use link_p2p.ShortCode.{Text}
use link_p2p.Contacts.{
  IdText, trim, compact, width, byte_length, split_at, read_split, parse_endpoint_token,
}

width_pos : (c : ℕ) → 1 ≤ width c
width_pos c = ground arith

-- No split falls inside the last character.
split_at-inside :
    (s : Text) (c k : ℕ) → 0 < k → k < width c → split_at (byte_length s + k) (s ++ c ∷ []) ≡ none
unfolding split_at byte_length
split_at-inside [] c k h l = ground (arith, h, l)
split_at-inside (x ∷ s) c k h l =
    let shorter : width x + byte_length s + k - width x ≡ byte_length s + k = omega arith in
    rw (shorter, split_at-inside s c k h l) (ground (arith, h, width_pos x))

byte_length-append_one : (s : Text) (c : ℕ) → byte_length (s ++ c ∷ []) ≡ byte_length s + width c
unfolding byte_length
byte_length-append_one [] c = omega arith
byte_length-append_one (x ∷ s) c = omega (arith, byte_length-append_one s c)

module _ {NodeId : Type 0} (ids : Endpoints NodeId) (texts : IdText NodeId) where
  -- A token that is no id text and that compacts to 53 characters, the last of more than one byte, makes
  -- the parser panic, whatever the other 52 are.
  pub parse_endpoint_token-panics :
      (token body : Text) (c : ℕ)
      → texts.from_text (trim token) ≡ none
      → compact (trim token) ≡ body ++ c ∷ []
      → length body ≡ 52
      → 1 < width c
      → parse_endpoint_token ids texts token ≡ none
  unfolding parse_endpoint_token read_split
  parse_endpoint_token-panics token body c unread e size wide =
      let total : length (body ++ c ∷ []) ≡ 53 = omega (arith, length-append body (c ∷ []), size) in
      let offset : byte_length (body ++ c ∷ []) - 1 ≡ byte_length body + (width c - 1) =
        omega (arith, byte_length-append_one body c, wide) in
      rw
        (
          parse_endpoint_token,
          unread,
          e,
          total,
          offset,
          split_at-inside body c (width c - 1) (omega (arith, wide)) (omega (arith, wide)),
        )
        refl
