-- ===== src/Backoff.antt =====
-- src/runtime.rs: the exponential backoff of the reconnect loops. Delays are in milliseconds.
pub mod Delays
use link_p2p.Prelude.{ℕ, ◌*◌, Option, none, some, ltb, min, if◌then◌else◌}

pub record Backoff : Type 0 where
  pub next_delay : ℕ
  pub base : ℕ
  pub max_delay : ℕ

unfoldable pub new_backoff : ℕ → ℕ → Backoff
new_backoff base max_delay = record { next_delay = base; base = base; max_delay = max_delay }

unfoldable pub next : Backoff → ℕ × Backoff
next b = (b.next_delay, record b { next_delay = min (b.next_delay * 2) b.max_delay })

unfoldable pub reset : Backoff → Backoff
reset b = record b { next_delay = b.base }

unfoldable pub after_session : ℕ → ℕ → Backoff → Option ℕ × Backoff
unfolding next reset
after_session lived min_stable b =
    if ltb lived min_stable then (some (next b).0, (next b).1) else (none, reset b)
