-- ===== src/Relays/Order.antt =====
-- The order that the cache gives is sorted and keeps every relay.
use link_p2p.Prelude.{◌≡◌, ◌∙◌, sym, Bool, true, false, List, map, arith}
use link_p2p.Sorting.{count, sort, sort-IsSorted, count-sort, count-map}
use link_p2p.Sorting
use link_p2p.Relays.{Scored, after, url_of}

module _ {Url : Type 0} where
  after_trans : (a b c : Scored Url) → after a b ≡ false → after b c ≡ false → after a c ≡ false
  unfolding after
  after_trans a b c h k = ground (arith, h, k)

  after_antisym : (a b : Scored Url) → after a b ≡ true → after b a ≡ false
  unfolding after
  after_antisym a b h = ground (arith, h)

  pub sort-scored : (scored : List (Scored Url)) → Sorting.IsSorted after (sort after scored)
  sort-scored = sort-IsSorted after after_trans after_antisym

  pub count-scored :
      (f : Url → Bool) (scored : List (Scored Url))
      → count f (map url_of (sort after scored)) ≡ count f (map url_of scored)
  count-scored f scored =
      count-map f url_of (sort after scored)
      ∙ count-sort after (λ a. f (url_of a)) scored
      ∙ sym (count-map f url_of scored)
