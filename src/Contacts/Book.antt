-- ===== src/Contacts/Book.antt =====
-- The contact book of src/contacts.rs and what src/phone_ring.rs asks of it. The book is the list of
-- its names in order, each at most once; a text is the list of its code points.
pub mod Names
use link_p2p.Prelude.{
  ℕ, Bool, true, false, ◌&&◌, ◌||◌, Option, none, some, List, [], ◌∷◌, bytes_eq, map, if◌then◌else◌,
}
use link_p2p.Outcome.{Msg, Result, ok, err, root, context}
use link_p2p.Endpoint.{Endpoints}
use link_p2p.ShortCode.{Text, to_ascii_uppercase}
use link_p2p.Contacts.{IdText, trim, parse_endpoint_token}

pub record Contact : Type 0 where
  pub id : Text
  pub relays : List Text
  pub addrs : List Text

abbrev pub ContactBook : Type 0
ContactBook = List (Text × Contact)

pub record ResolvedPeer (NodeId Addr : Type 0) : Type 0 where
  pub id : NodeId
  pub relays : List Text
  pub addrs : List Addr
  pub name : Option Text

abbrev pub eq_ignore_ascii_case : Text → Text → Bool
eq_ignore_ascii_case a b = bytes_eq (map to_ascii_uppercase a) (map to_ascii_uppercase b)

-- `find`, with the test on the entry.
unfoldable pub find : (Text → Contact → Bool) → ContactBook → Option (Text × Contact)
find test [] = none
find test ((n, c) ∷ book) = let rest = find test book in if test n c then some (n, c) else rest

abbrev pub first_of : {A : Type 0} → Option A → Option A → Option A
first_of (some a) b = some a
first_of none b = b

-- The exact name, else a name in other letters.
unfoldable pub find_name : ContactBook → Text → Option (Text × Contact)
unfolding find
find_name book key =
    first_of (find (λ n c. bytes_eq n key) book) (find (λ n c. eq_ignore_ascii_case n key) book)

module _ {NodeId Addr : Type 0} (ids : Endpoints NodeId) (texts : IdText NodeId)
    (read_addr : Text → Option Addr) where
  abbrev pub read_addrs : List Text → Result (List Addr)
  read_addrs [] = ok []
  read_addrs (a ∷ more) =
      let rest = read_addrs more in
      elim (read_addr a) [
        | none ↦ err (context Msg.invalid_address (root Msg.invalid_address))
        | some addr ↦ elim rest [ ok addrs ↦ ok (addr ∷ addrs) | err e ↦ err e ]
      ]

  unfoldable pub contact_to_resolved : Text → Contact → Result (ResolvedPeer NodeId Addr)
  contact_to_resolved name c = elim (texts.from_text c.id) [
    | none ↦ err (context Msg.invalid_contact (root Msg.invalid_endpoint))
    | some id ↦ elim (read_addrs c.addrs) [
      | err e ↦ err e
      | ok addrs ↦ ok (record { id = id; relays = c.relays; addrs = addrs; name = some name })
    ]
  ]

  abbrev pub unnamed : Result NodeId → Result (ResolvedPeer NodeId Addr)
  unnamed (ok id) = ok (record { id = id; relays = []; addrs = []; name = none })
  unnamed (err e) = err e

  -- `none` where the parser of tokens panics.
  unfoldable pub resolve : ContactBook → Text → Option (Result (ResolvedPeer NodeId Addr))
  unfolding find_name contact_to_resolved
  resolve book to = elim (find_name book (trim to)) [
    | some (name, c) ↦ some (contact_to_resolved name c)
    | none ↦ elim (parse_endpoint_token ids texts (trim to)) [
      | none ↦ none
      | some r ↦ some (unnamed r)
    ]
  ]

module _ {NodeId : Type 0} (ids : Endpoints NodeId) (texts : IdText NodeId) where
  unfoldable pub name_for_id : ContactBook → NodeId → Option Text
  unfolding find
  name_for_id book id =
      let hex = texts.to_text id in
      elim (find (λ n c. bytes_eq c.id hex || eq_ignore_ascii_case c.id hex) book) [
        | none ↦ none
        | some (n, c) ↦ some n
      ]

  unfoldable pub is_known_contact : ContactBook → NodeId → Bool
  unfolding name_for_id
  is_known_contact book peer = elim (name_for_id book peer) [ none ↦ false | some n ↦ true ]

  -- `none` where the parser of tokens panics.
  unfoldable pub match_peer_token : ContactBook → Text → NodeId → Option Bool
  unfolding name_for_id
  match_peer_token book token peer =
      if eq_ignore_ascii_case token (texts.to_text peer)
      then some true
      else elim (parse_endpoint_token ids texts token) [
        | none ↦ none
        | some (ok id) ↦ some (ids.same id peer)
        | some (err e) ↦ elim (name_for_id book peer) [
          | none ↦ some false
          | some n ↦ some (eq_ignore_ascii_case n token)
        ]
      ]
