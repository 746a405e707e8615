-- ===== src/Backoff/Delays.antt =====
-- The delays that src/runtime.rs sleeps between failing sessions.
use link_p2p.Prelude.{ℕ, zero, suc, ◌*◌, ◌≤◌, ◌<◌, ◌≡◌, none, some, min, arith}
use link_p2p.Backoff.{Backoff, new_backoff, next, reset, after_session}

-- `k` unstable sessions one after the other.
unfoldable pub unstable : ℕ → ℕ → ℕ → Backoff → Backoff
unstable zero lived min_stable b = b
unstable (suc k) lived min_stable b =
    (after_session lived min_stable (unstable k lived min_stable b)).1

-- `base` doubled `k` times.
abbrev pub doubled : ℕ → ℕ → ℕ
doubled zero base = base
doubled (suc k) base = doubled k base * 2

module _ (lived min_stable base max_delay : ℕ) (short : lived < min_stable)
    (bounded : base ≤ max_delay) where
  unstable-delay :
      (k : ℕ)
      → unstable k lived min_stable (new_backoff base max_delay)
        ≡ record { next_delay = min (doubled k base) max_delay; base = base; max_delay = max_delay }
  unfolding unstable new_backoff after_session next
  unstable-delay zero = ground arith
  unstable-delay (suc k) = ground (arith, unstable-delay k)

  -- When every session before it was unstable and the base is at most the cap, the delay after a
  -- further unstable session is the base, doubled once for each of them, up to the cap; a stable
  -- session is redialled at once, and the delay after that starts from the base.
  pub after_session-doubled :
      (k stable : ℕ)
      → min_stable ≤ stable
      → ((after_session lived min_stable
            (unstable k lived min_stable (new_backoff base max_delay))).0
          ≡ some (min (doubled k base) max_delay))
        × (after_session stable min_stable
              (unstable k lived min_stable (new_backoff base max_delay))
            ≡ (none, new_backoff base max_delay))
  unfolding after_session next reset new_backoff
  after_session-doubled k stable long = rw (unstable-delay k) (ground arith, ground arith)
