-- ===== src/Relays.antt =====
-- src/relay_rtt.rs: the cache of the relays' round trips and the order that it gives. The file is the
-- value that was saved last; a url is compared by `==`.
pub mod Order
pub mod Fresh
use link_p2p.Prelude.{
  ℕ, ◌^◌, ◌/◌, ◌%◌, ◌-◌, Option, none, some, List, [], ◌∷◌, map, Bool, ltb, ◌||◌, ◌&&◌, suc, ◌*◌,
  ◌==◌, if◌then◌else◌,
}
use link_p2p.Sorting.{sort}
use link_p2p.Table.{Keys, get, insert}

-- Seconds.
abbrev pub cache_ttl : ℕ
cache_ttl = 24 * 60 * 60

pub record Entry : Type 0 where
  pub rtt_ms : Option ℕ
  pub updated_unix : ℕ

-- The place of a relay: its round trip, its index among the urls, the url.
pub record Scored (Url : Type 0) : Type 0 where
  pub rank : ℕ
  pub index : ℕ
  pub url : Url

-- `unwrap_or(u64::MAX / 2)`
unfoldable pub rank_of : Option ℕ → ℕ
rank_of none = (2 ^ 64 - 1) / 2
rank_of (some ms) = ms

-- Whether the comparison of `sort_by` puts `a` after `b`.
unfoldable pub after : {Url : Type 0} → Scored Url → Scored Url → Bool
after a b = ltb b.rank a.rank || (b.rank == a.rank && ltb b.index a.index)

abbrev pub url_of : {Url : Type 0} → Scored Url → Url
url_of a = a.url

module _ {Url : Type 0} (urls : Keys Url) where
  -- The entry of a url if it is fresh. The subtraction stops at 0, as `saturating_sub` does.
  unfoldable pub fresh : List (Url × Entry) → ℕ → Url → Option ℕ
  unfolding rank_of
  fresh cache now u = elim (get urls cache u) [
    | none ↦ none
    | some e ↦ if ltb cache_ttl (now - e.updated_unix) then none else some (rank_of e.rtt_ms)
  ]

  unfoldable pub score : List (Url × Entry) → ℕ → ℕ → List Url → Option (List (Scored Url))
  unfolding fresh
  score cache now i [] = some []
  score cache now i (u ∷ us) =
      let rest = score cache now (suc i) us in
      elim (fresh cache now u) [
        | none ↦ none
        | some r ↦ elim rest [
          | none ↦ none
          | some scored ↦ some (record { rank = r; index = i; url = u } ∷ scored)
        ]
      ]

  unfoldable pub order_from_fresh_cache : List (Url × Entry) → ℕ → List Url → Option (List Url)
  unfolding score after sort
  order_from_fresh_cache cache now [] = some []
  order_from_fresh_cache cache now (u ∷ us) = elim (score cache now 0 (u ∷ us)) [
    | none ↦ none
    | some scored ↦ some (map url_of (sort after scored))
  ]

  -- A probe has its duration in milliseconds, `as u64`, or none when it failed.
  unfoldable pub sampled : ℕ → Option ℕ → Entry
  sampled now none = record { rtt_ms = none; updated_unix = now }
  sampled now (some ms) = record { rtt_ms = some (ms % 2 ^ 64); updated_unix = now }

  unfoldable pub record_probe_results :
      List (Url × Option ℕ) → ℕ → List (Url × Entry) → List (Url × Entry)
  unfolding insert sampled
  record_probe_results [] now cache = cache
  record_probe_results ((u, d) ∷ results) now cache =
      record_probe_results results now (insert urls cache u (sampled now d))
