-- ===== src/Allow.antt =====
-- src/runtime.rs and src/config.rs: the allow list of a TUN node and the list of relays, from the
-- command line and what stands behind it. A text is the list of its code points.
pub mod Lists
use link_p2p.Prelude.{
  ℕ, Bool, true, false, ◌||◌, Option, none, some, List, [], ◌∷◌, ◌++◌, ◌==◌, bytes_eq,
  if◌then◌else◌,
}
use link_p2p.Outcome.{Msg, Result, ok, err, root, context, coded, exit_usage}
use link_p2p.ShortCode.{Text}
use link_p2p.Contacts.{IdText, trim, is_nil}

-- `split(',')`
abbrev pub cons_part : ℕ → List Text → List Text
cons_part c [] = (c ∷ []) ∷ []
cons_part c (p ∷ ps) = (c ∷ p) ∷ ps

unfoldable pub split_commas : Text → List Text
split_commas [] = [] ∷ []
split_commas (c ∷ cs) =
    let rest = split_commas cs in if c == b',' then [] ∷ rest else cons_part c rest

-- The parts, trimmed, without the empty ones.
unfoldable pub trimmed_parts : List Text → List Text
trimmed_parts [] = []
trimmed_parts (p ∷ ps) =
    let rest = trimmed_parts ps in if is_nil (trim p) then rest else trim p ∷ rest

-- `env` is the variable LINK_P2P_ALLOW, when it is set.
unfoldable pub merge_allow_list : List Text → Option Text → List Text
unfolding split_commas trimmed_parts
merge_allow_list (a ∷ cli) env = a ∷ cli
merge_allow_list [] none = []
merge_allow_list [] (some s) = if is_nil (trim s) then [] else trimmed_parts (split_commas s)

module _ {NodeId : Type 0} (texts : IdText NodeId) where
  abbrev pub read_ids : List Text → Result (List NodeId)
  read_ids [] = ok []
  read_ids (s ∷ ss) =
      let rest = read_ids ss in
      elim (texts.from_text s) [
        | none ↦ err (coded exit_usage (context Msg.invalid_allow (root Msg.invalid_endpoint)))
        | some id ↦ elim rest [ ok set ↦ ok (id ∷ set) | err e ↦ err e ]
      ]

  abbrev pub open_or : List Text → Result (Option (List NodeId))
  open_or [] = ok none
  open_or (s ∷ ss) = elim (read_ids (s ∷ ss)) [ ok set ↦ ok (some set) | err e ↦ err e ]

  -- The set is the list of its ids.
  unfoldable pub parse_tun_allow : List Text → Option Text → Result (Option (List NodeId))
  unfolding merge_allow_list
  parse_tun_allow cli env = open_or (merge_allow_list cli env)

abbrev pub contains : List Text → Text → Bool
contains [] u = false
contains (s ∷ ss) u = bytes_eq s u || contains ss u

-- The loop with the set of those seen.
unfoldable pub unseen : List Text → List Text → List Text
unseen seen [] = []
unseen seen (u ∷ us) =
    let again = unseen seen us in
    let first = unseen (u ∷ seen) us in if contains seen u then again else u ∷ first

unfoldable pub merge_relay_urls : List Text → List Text → List Text
unfolding unseen
merge_relay_urls cli cfg = unseen [] (cli ++ cfg)
