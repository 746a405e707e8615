-- ===== src/Contacts/Book/Names.antt =====
-- What a name of the contact book of src/contacts.rs stands for.
use link_p2p.Prelude.{
  ◌≡◌, refl, Bool, true, false, some, [], ◌∷◌, ◌++◌, All, bytes_eq, bytes_eq_self,
}
use link_p2p.Endpoint.{Endpoints}
use link_p2p.ShortCode.{Text, encode_short_code}
use link_p2p.Contacts.{IdText}
use link_p2p.Contacts.Tokens.{parse_endpoint_token-encode_short_code}
use link_p2p.Net.{IsByte}
use link_p2p.Contacts.Book.{
  Contact, ContactBook, eq_ignore_ascii_case, find, find_name, match_peer_token,
}

find-behind :
    (test : Text → Contact → Bool) (xs ys : ContactBook) (n : Text) (c : Contact)
    → All (λ e. test e.0 e.1 ≡ false) xs
    → test n c ≡ true
    → find test (xs ++ (n, c) ∷ ys) ≡ some (n, c)
unfolding find
find-behind test [] ys n c h t = rw t refl
find-behind test ((m, d) ∷ xs) ys n c (hm, hs) t = rw hm (find-behind test xs ys n c hs t)

-- A name in its exact letters stands for its own entry, even when an entry before it has the same name
-- in other letters.
pub find_name-exact :
    (xs ys : ContactBook) (key : Text) (c : Contact)
    → All (λ e. bytes_eq e.0 key ≡ false) xs
    → find_name (xs ++ (key, c) ∷ ys) key ≡ some (key, c)
unfolding find_name
find_name-exact xs ys key c h =
    rw (find-behind (λ n d. bytes_eq n key) xs ys key c h (bytes_eq_self key)) refl

-- The short code of an id matches the peer with this id and no other, whatever the book holds, unless
-- it is the text of the peer's id in other letters.
pub match_peer_token-encode_short_code :
    {NodeId : Type 0} (ids : Endpoints NodeId) (texts : IdText NodeId) (book : ContactBook)
    (id peer : NodeId)
    → All IsByte (ids.as_bytes id)
    → eq_ignore_ascii_case (encode_short_code (ids.as_bytes id)) (texts.to_text peer) ≡ false
    → match_peer_token ids texts book (encode_short_code (ids.as_bytes id)) peer
      ≡ some (ids.same id peer)
unfolding match_peer_token
match_peer_token-encode_short_code ids texts book id peer bytes other =
    rw (match_peer_token, other, parse_endpoint_token-encode_short_code ids texts id bytes) refl
