-- ===== src/PathStats/Rates.antt =====
-- The rates of src/path_stats.rs are what the samples of each peer say.
use link_p2p.Prelude.{
  ℕ, suc, ◌+◌, ◌≡◌, ◌⊎◌, refl, sym, ap, ◌∙◌, Bool, true, false, not, ◌&&◌, Option, none, some, List,
  [], ◌∷◌, ◌==◌, bytes_eq, bytes_eq→eq, Bool-cases, Option-cases, arith, inl, inr, if◌then◌else◌,
}
use link_p2p.ShortCode.{Text}
use link_p2p.Table.{get, insert}
use link_p2p.Table.Lookups.{get-insert_same, get-insert_other}
use link_p2p.Sorting.{count}
use link_p2p.PathStats.{
  PathSample, PathSummary, text_keys, is_direct, or_default, tallied, tally, peer_direct_rates,
}

-- A sample that counts for a peer, and one that counts as direct.
abbrev pub counts_for : Text → PathSample → Bool
counts_for peer s = not s.relay_only && bytes_eq s.peer peer

abbrev pub direct_for : Text → PathSample → Bool
direct_for peer s = counts_for peer s && is_direct s.path

-- `n` further samples, `d` of them direct.
abbrev pub add_counts : Option (ℕ × ℕ) → ℕ → ℕ → Option (ℕ × ℕ)
add_counts none d n = if n == 0 then none else some (d, n)
add_counts (some (d', n')) d n = some (d' + d, n' + n)

add_counts-tallied_direct :
    (o : Option (ℕ × ℕ)) (d n : ℕ)
    → add_counts (some (tallied true (or_default o))) d n ≡ add_counts o (suc d) (suc n)
add_counts-tallied_direct none d n = ground arith
add_counts-tallied_direct (some (d', n')) d n = ground arith

add_counts-tallied_other :
    (o : Option (ℕ × ℕ)) (d n : ℕ)
    → add_counts (some (tallied false (or_default o))) d n ≡ add_counts o d (suc n)
add_counts-tallied_other none d n = ground arith
add_counts-tallied_other (some (d', n')) d n = ground arith

-- The new tally of a peer.
abbrev tally_of : List (Text × (ℕ × ℕ)) → PathSample → ℕ × ℕ
tally_of m s = tallied (is_direct s.path) (or_default (get text_keys m s.peer))

get-tallied :
    (m : List (Text × (ℕ × ℕ))) (s : PathSample) (peer : Text)
    → bytes_eq s.peer peer ≡ true
    → get text_keys (insert text_keys m s.peer (tally_of m s)) peer
      ≡ some (tallied (is_direct s.path) (or_default (get text_keys m peer)))
get-tallied m s peer same =
    let e = bytes_eq→eq s.peer peer same in
    ap (λ p. get text_keys (insert text_keys m s.peer (tally_of m s)) p) (sym e)
    ∙ get-insert_same text_keys m s.peer (tally_of m s)
    ∙ ap (λ p. some (tallied (is_direct s.path) (or_default (get text_keys m p)))) e

-- One more sample of the peer.
counted :
    (o : Option (ℕ × ℕ)) (b : Bool) (d n : ℕ)
    → add_counts (some (tallied b (or_default o))) d n
      ≡ add_counts o (if b then suc d else d) (suc n)
counted o true d n = add_counts-tallied_direct o d n
counted o false d n = add_counts-tallied_other o d n

count-counts_for :
    (f : PathSample → Bool) (s : PathSample) (samples : List PathSample) (b : Bool)
    → f s ≡ b
    → count f (s ∷ samples) ≡ (if b then suc (count f samples) else count f samples)
count-counts_for f s samples true h = rw h refl
count-counts_for f s samples false h = rw h refl

-- What a sample adds to the counts of a peer.
for_peer :
    (s : PathSample) (peer : Text)
    → s.relay_only ≡ false
    → bytes_eq s.peer peer ≡ true
    → (counts_for peer s ≡ true) × (direct_for peer s ≡ is_direct s.path)
for_peer s peer t same = ground (arith, t, same)

not_for_peer :
    (s : PathSample) (peer : Text)
    → (s.relay_only ≡ true) ⊎ (bytes_eq s.peer peer ≡ false)
    → (counts_for peer s ≡ false) × (direct_for peer s ≡ false)
not_for_peer s peer h = ground (arith, h)

add_counts-skip :
    (o : Option (ℕ × ℕ)) (s : PathSample) (samples : List PathSample) (peer : Text)
    → (s.relay_only ≡ true) ⊎ (bytes_eq s.peer peer ≡ false)
    → add_counts o (count (direct_for peer) samples) (count (counts_for peer) samples)
      ≡ add_counts o (count (direct_for peer) (s ∷ samples)) (count (counts_for peer) (s ∷ samples))
add_counts-skip o s samples peer h =
    let (all, direct) = not_for_peer s peer h in
    rw
      (
        count-counts_for (direct_for peer) s samples false direct,
        count-counts_for (counts_for peer) s samples false all,
      )
      refl

add_counts-take :
    (o : Option (ℕ × ℕ)) (s : PathSample) (samples : List PathSample) (peer : Text)
    → s.relay_only ≡ false
    → bytes_eq s.peer peer ≡ true
    → add_counts
        (some (tallied (is_direct s.path) (or_default o)))
        (count (direct_for peer) samples)
        (count (counts_for peer) samples)
      ≡ add_counts o (count (direct_for peer) (s ∷ samples)) (count (counts_for peer) (s ∷ samples))
add_counts-take o s samples peer t same =
    let (all, direct) = for_peer s peer t same in
    rw
      (
        count-counts_for (direct_for peer) s samples (is_direct s.path) direct,
        count-counts_for (counts_for peer) s samples true all,
      )
      (counted o (is_direct s.path) (count (direct_for peer) samples)
        (count (counts_for peer) samples))

tally-nil :
    (m : List (Text × (ℕ × ℕ))) (peer : Text)
    → get text_keys (tally m []) peer ≡ add_counts (get text_keys m peer) 0 0
unfolding tally
tally-nil m peer = elim (Option-cases (get text_keys m peer)) [
  | inl e ↦ rw (tally, e) refl
  | inr (r, e) ↦ rw (tally, e) (ground arith)
]

tally-skip :
    (s : PathSample) (samples : List PathSample) (m : List (Text × (ℕ × ℕ)))
    → s.relay_only ≡ true
    → tally m (s ∷ samples) ≡ tally m samples
unfolding tally
tally-skip s samples m t = rw (tally, t) refl

tally-take :
    (s : PathSample) (samples : List PathSample) (m : List (Text × (ℕ × ℕ)))
    → s.relay_only ≡ false
    → tally m (s ∷ samples) ≡ tally (insert text_keys m s.peer (tally_of m s)) samples
unfolding tally
tally-take s samples m t = rw (tally, t) refl

tally-counts :
    (samples : List PathSample) (m : List (Text × (ℕ × ℕ))) (peer : Text)
    → get text_keys (tally m samples) peer
      ≡ add_counts
          (get text_keys m peer)
          (count (direct_for peer) samples)
          (count (counts_for peer) samples)
tally-counts [] m peer = tally-nil m peer
tally-counts (s ∷ samples) m peer =
    let more = insert text_keys m s.peer (tally_of m s) in
    elim (Bool-cases s.relay_only) [
      | inl t ↦
          ap (λ r. get text_keys r peer) (tally-skip s samples m t)
          ∙ tally-counts samples m peer
          ∙ add_counts-skip (get text_keys m peer) s samples peer (inl t)
      | inr t ↦
          ap (λ r. get text_keys r peer) (tally-take s samples m t)
          ∙ tally-counts samples more peer
          ∙ elim (Bool-cases (bytes_eq s.peer peer)) [
            | inl same ↦
                ap
                  (λ o.
                    add_counts o (count (direct_for peer) samples)
                      (count (counts_for peer) samples))
                  (get-tallied m s peer same)
                ∙ add_counts-take (get text_keys m peer) s samples peer t same
            | inr other ↦
                ap
                  (λ o.
                    add_counts o (count (direct_for peer) samples)
                      (count (counts_for peer) samples))
                  (get-insert_other text_keys m s.peer peer (tally_of m s) other)
                ∙ add_counts-skip (get text_keys m peer) s samples peer (inr other)
          ]
    ]

-- The rate of a peer is the number of its direct samples among those of its samples that were not
-- bound to relays, and a peer has no rate exactly if it has no such sample.
pub peer_direct_rates-counts :
    (summary : PathSummary) (peer : Text)
    → get text_keys (peer_direct_rates summary) peer ≡ (
        if count (counts_for peer) summary.samples == 0
        then none
        else some
            (count (direct_for peer) summary.samples, count (counts_for peer) summary.samples))
unfolding peer_direct_rates
peer_direct_rates-counts summary peer = tally-counts summary.samples [] peer
