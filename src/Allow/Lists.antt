-- ===== src/Allow/Lists.antt =====
-- Which ids an allow list admits, and which relays a merge keeps.
use link_p2p.Prelude.{
  ◌≡◌, refl, length, ◌<◌, sym, ◌∙◌, true, false, ◌||◌, Option, some, List, [], ◌∷◌, ◌++◌, bytes_eq,
  bytes_eq_self, bytes_eq→eq, map, Bool-cases, arith, inl, inr,
}
use link_p2p.Outcome.{ok}
use link_p2p.ShortCode.{Text}
use link_p2p.Contacts.{IdText}
use link_p2p.Allow.{read_ids, open_or, parse_tun_allow, contains, unseen, merge_relay_urls}

module _ {NodeId : Type 0} (texts : IdText NodeId) where
  read_ids-to_text : (is : List NodeId) → read_ids texts (map texts.to_text is) ≡ ok is
  read_ids-to_text [] = refl
  read_ids-to_text (i ∷ is) = rw (texts.reads_back i, read_ids-to_text is) refl

  open_or-read_ids :
      (set : List NodeId) (given : List Text)
      → read_ids texts given ≡ ok set
      → 0 < length given
      → open_or texts given ≡ ok (some set)
  open_or-read_ids set [] h nonempty = absurd (omega (arith, nonempty))
  open_or-read_ids set (s ∷ ss) h nonempty = rw (open_or, h) refl

  -- Ids on the command line are the allow list, whatever the environment says.
  pub parse_tun_allow-cli :
      (i : NodeId) (is : List NodeId) (env : Option Text)
      → parse_tun_allow texts (map texts.to_text (i ∷ is)) env ≡ ok (some (i ∷ is))
  unfolding parse_tun_allow
  parse_tun_allow-cli i is env =
      open_or-read_ids (i ∷ is) (map texts.to_text (i ∷ is)) (read_ids-to_text (i ∷ is))
        (omega arith)

-- A url is kept if it is in the list and was not seen before, and only then.
contains-unseen :
    (us seen : List Text) (v : Text)
    → contains seen v ≡ false
    → contains (unseen seen us) v ≡ contains us v
unfolding unseen
contains-unseen [] seen v h = refl
contains-unseen (u ∷ us) seen v h = elim (Bool-cases (contains seen u)) [
  | inl t ↦ elim (Bool-cases (bytes_eq u v)) [
    | inl same ↦
        let known : contains seen v ≡ true = rw (sym (bytes_eq→eq u v same)) t in
        absurd (ground (arith, known, h))
    | inr other ↦ rw (t, other) (contains-unseen us seen v h)
  ]
  | inr t ↦ elim (Bool-cases (bytes_eq u v)) [
    | inl same ↦ rw (t, same) refl
    | inr other ↦
        let apart : contains (u ∷ seen) v ≡ false = rw other h in
        rw (t, other) (contains-unseen us (u ∷ seen) v apart)
  ]
]

contains-append :
    (us vs : List Text) (v : Text) → contains (us ++ vs) v ≡ (contains us v || contains vs v)
contains-append [] vs v = refl
contains-append (u ∷ us) vs v = ground (arith, contains-append us vs v)

-- The merge keeps exactly the relays of both lists.
pub contains-merge_relay_urls :
    (cli cfg : List Text) (v : Text)
    → contains (merge_relay_urls cli cfg) v ≡ (contains cli v || contains cfg v)
unfolding merge_relay_urls
contains-merge_relay_urls cli cfg v =
    contains-unseen (cli ++ cfg) [] v refl ∙ contains-append cli cfg v

abbrev pub IsDistinct : List Text → Type 0
IsDistinct [] = Unit
IsDistinct (u ∷ us) = (contains us u ≡ false) × IsDistinct us

contains-unseen_seen :
    (us seen : List Text) (v : Text) → contains seen v ≡ true → contains (unseen seen us) v ≡ false
unfolding unseen
contains-unseen_seen [] seen v h = refl
contains-unseen_seen (u ∷ us) seen v h = elim (Bool-cases (contains seen u)) [
  | inl t ↦ rw t (contains-unseen_seen us seen v h)
  | inr t ↦ elim (Bool-cases (bytes_eq u v)) [
    | inl same ↦
        let known : contains seen u ≡ true = rw (bytes_eq→eq u v same) h in
        absurd (ground (arith, known, t))
    | inr other ↦
        let still : contains (u ∷ seen) v ≡ true = rw other h in
        rw (t, other) (contains-unseen_seen us (u ∷ seen) v still)
  ]
]

unseen-IsDistinct : (us seen : List Text) → IsDistinct (unseen seen us)
unfolding unseen
unseen-IsDistinct [] seen = tt
unseen-IsDistinct (u ∷ us) seen = elim (Bool-cases (contains seen u)) [
  | inl t ↦ rw t (unseen-IsDistinct us seen)
  | inr t ↦
      let known : contains (u ∷ seen) u ≡ true = rw (bytes_eq_self u) refl in
      rw t (contains-unseen_seen us (u ∷ seen) u known, unseen-IsDistinct us (u ∷ seen))
]

-- No relay is kept twice.
pub merge_relay_urls-IsDistinct : (cli cfg : List Text) → IsDistinct (merge_relay_urls cli cfg)
unfolding merge_relay_urls
merge_relay_urls-IsDistinct cli cfg = unseen-IsDistinct (cli ++ cfg) []
