-- ===== src/Tests/Logs.antt =====
-- A log of three samples of two peers.
use link_p2p.Prelude.{ℕ, ◌≡◌, refl, false, none, some, List, [], ◌∷◌, ◌==◌, if◌then◌else◌}
use link_p2p.ShortCode.{Text}
use link_p2p.PathKind.{PathKind}
use link_p2p.Table.{get, remove}
use link_p2p.Sorting.{count}
use link_p2p.PathStats.{
  PathSample, PathSummary, text_keys, peer_direct_rates, sort_by_direct_history_with_rates,
}
use link_p2p.PathStats.Rates.{counts_for, direct_for, peer_direct_rates-counts}

abbrev sample : ℕ → PathKind → PathSample
sample peer kind = record {
  ts = 0;
  cmd = [];
  peer_short = [];
  peer = peer ∷ [];
  path = kind;
  upgrade_ms = none;
  relay_only = false;
}

abbrev summary : PathSummary
summary = record {
  total = 3;
  direct = 2;
  relay = 1;
  relay_candidate = 0;
  unknown = 0;
  samples = sample 1 PathKind.direct ∷ sample 1 PathKind.relay ∷ sample 2 PathKind.direct ∷ [];
}

peer_direct_rates-counts_example : get text_keys (peer_direct_rates summary) (1 ∷ []) ≡ (
    if count (counts_for (1 ∷ [])) summary.samples == 0
    then none
    else some
        (count (direct_for (1 ∷ [])) summary.samples, count (counts_for (1 ∷ [])) summary.samples))
peer_direct_rates-counts_example = peer_direct_rates-counts summary (1 ∷ [])

abbrev hex : ℕ → Text
hex n = n ∷ []

abbrev dialled : List ℕ → List ℕ
dialled = sort_by_direct_history_with_rates hex (peer_direct_rates summary)

best_first : dialled (3 ∷ 1 ∷ 2 ∷ []) ≡ 2 ∷ 1 ∷ 3 ∷ []
unfolding sort_by_direct_history_with_rates peer_direct_rates get remove
best_first = refl
