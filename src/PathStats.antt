-- ===== src/PathStats.antt =====
-- src/path_stats.rs: the rolling log of how sessions reached their peers, its summary, and the order of
-- dials that it gives. The log is the list of its lines. A rate is the pair of its counts: two
-- quotients of counts below 2 ^ 26 compare as `f64` like the fractions do, and the log keeps 500 lines.
pub mod Log
pub mod Rates
pub mod Dials
use link_p2p.Prelude.{
  ℕ, suc, ◌+◌, ◌-◌, ◌*◌, Bool, true, false, Option, none, some, List, [], ◌∷◌, ◌++◌, ltb, leb,
  length, drop, min, ◌≡◌, ◌↔◌, bytes_eq, bytes_eq_self, bytes_eq→eq, if◌then◌else◌,
}
use link_p2p.ShortCode.{Text}
use link_p2p.Contacts.{trim, is_nil}
use link_p2p.PathKind.{PathKind, direct, relay, relay_with_direct_candidate, unknown}
use link_p2p.Table.{Keys, get, insert}
use link_p2p.Sorting.{sort}

abbrev pub max_lines : ℕ
max_lines = 500

-- `path` is the kind that the text stands for, `unknown` for every other text.
pub record PathSample : Type 0 where
  pub ts : ℕ
  pub cmd : Text
  pub peer_short : Text
  pub peer : Text
  pub path : PathKind
  pub upgrade_ms : Option ℕ
  pub relay_only : Bool

pub record PathSummary : Type 0 where
  pub total : ℕ
  pub direct : ℕ
  pub relay : ℕ
  pub relay_candidate : ℕ
  pub unknown : ℕ
  pub samples : List PathSample

-- `serde_json`, which prints a sample on one line that no blank surrounds and reads it back.
pub record SampleJson : Type 0 where
  pub to_line : PathSample → Text
  pub from_line : Text → Option PathSample
  pub reads_back : (s : PathSample) → from_line (to_line s) ≡ some s
  pub unpadded : (s : PathSample) → trim (to_line s) ≡ to_line s
  pub nonempty : (s : PathSample) → is_nil (to_line s) ≡ false

-- The last `n` of a list.
abbrev pub last_of {ℓ} : {A : Type ℓ} → ℕ → List A → List A
last_of n xs = drop (length xs - n) xs

unfoldable pub trim_file : ℕ → List Text → List Text
trim_file max lines = if leb (length lines) max then lines else last_of max lines

abbrev pub count_path : PathKind → PathSummary → PathSummary
count_path PathKind.direct s = record s { direct = s.direct + 1 }
count_path PathKind.relay s = record s { relay = s.relay + 1 }
count_path PathKind.relay_with_direct_candidate s = record s {
  relay_candidate = s.relay_candidate + 1;
}
count_path PathKind.unknown s = record s { unknown = s.unknown + 1 }

unfoldable pub add_sample : PathSample → PathSummary → PathSummary
add_sample sample s =
    let counted = count_path sample.path s in
    record counted { total = counted.total + 1; samples = counted.samples ++ sample ∷ [] }

abbrev pub no_samples : PathSummary
no_samples = record {
  total = 0;
  direct = 0;
  relay = 0;
  relay_candidate = 0;
  unknown = 0;
  samples = [];
}

module _ (json : SampleJson) where
  unfoldable pub record_sample : PathSample → List Text → List Text
  unfolding trim_file
  record_sample sample lines = trim_file max_lines (lines ++ json.to_line sample ∷ [])

  unfoldable pub add_line : Text → PathSummary → PathSummary
  unfolding trim add_sample
  add_line line s =
      if is_nil (trim line)
      then s
      else elim (json.from_line (trim line)) [ none ↦ s | some sample ↦ add_sample sample s ]

  unfoldable pub add_lines : List Text → PathSummary → PathSummary
  unfolding add_line
  add_lines [] s = s
  add_lines (line ∷ lines) s = add_lines lines (add_line line s)

  abbrev pub limited : Option ℕ → List Text → ℕ
  limited none lines = length lines
  limited (some limit) lines = min limit (length lines)

  unfoldable pub load_summary : Option ℕ → List Text → PathSummary
  unfolding add_lines
  load_summary limit lines = add_lines (last_of (limited limit lines) lines) no_samples

pub text_same : (a b : Text) → (bytes_eq a b ≡ true) ↔ (a ≡ b)
text_same a b = (bytes_eq→eq a b, λ e. rw e (bytes_eq_self b))

abbrev pub text_keys : Keys Text
text_keys = record { same = bytes_eq; same_iff = text_same }

abbrev pub is_direct : PathKind → Bool
is_direct PathKind.direct = true
is_direct _ = false

abbrev pub or_default : Option (ℕ × ℕ) → ℕ × ℕ
or_default none = (0, 0)
or_default (some e) = e

abbrev pub tallied : Bool → ℕ × ℕ → ℕ × ℕ
tallied true (d, n) = (d + 1, n + 1)
tallied false (d, n) = (d, n + 1)

-- The direct and all samples of a peer.
unfoldable pub tally : List (Text × (ℕ × ℕ)) → List PathSample → List (Text × (ℕ × ℕ))
unfolding get insert
tally m [] = m
tally m (s ∷ samples) =
    let rest = tally m samples in
    let more =
      tally
        (insert text_keys m s.peer
          (tallied (is_direct s.path) (or_default (get text_keys m s.peer))))
        samples in
    if s.relay_only then rest else more

-- Every tally has a sample, so that the filter of the empty ones keeps all.
unfoldable pub peer_direct_rates : PathSummary → List (Text × (ℕ × ℕ))
unfolding tally
peer_direct_rates summary = tally [] summary.samples

-- Whether the comparison puts the first rate after the second: the lower one, and none after any.
unfoldable pub after_rate : Option (ℕ × ℕ) → Option (ℕ × ℕ) → Bool
after_rate (some (d, n)) (some (d', n')) = ltb (d * n') (d' * n)
after_rate (some r) none = false
after_rate none (some r) = true
after_rate none none = false

module _ {Item : Type 0} (peer_hex : Item → Text) (rates : List (Text × (ℕ × ℕ))) where
  unfoldable pub after_item : Item → Item → Bool
  unfolding after_rate
  after_item a b = after_rate (get text_keys rates (peer_hex a)) (get text_keys rates (peer_hex b))

  unfoldable pub sort_by_direct_history_with_rates : List Item → List Item
  unfolding sort after_item
  sort_by_direct_history_with_rates items = sort after_item items

unfoldable pub sort_by_direct_history :
    {Item : Type 0} → SampleJson → List Text → (Item → Text) → List Item → List Item
unfolding load_summary peer_direct_rates sort_by_direct_history_with_rates
sort_by_direct_history json lines peer_hex items =
    sort_by_direct_history_with_rates peer_hex (peer_direct_rates (load_summary json none lines))
      items
