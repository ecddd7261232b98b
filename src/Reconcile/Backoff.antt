-- ===== src/Reconcile/Backoff.antt =====
-- The retry delay.
use edge_route_gw.Prelude.{ℕ, suc, ◌*◌, ◌^◌, ◌≤◌, min, ◌≡◌, ◌⊎◌, arith}
use native.Mathlib.Nat.{pow-suc}
use edge_route_gw.Prelude.Div.{two_pow_pos}
use edge_route_gw.Reconcile.{second, next_backoff}

-- If the maximum is at least one second, and the delay is zero or between one second and the
-- maximum, then the new delay is between one second and the maximum.
pub next_backoff_bounds :
    (top delay : ℕ)
    → second ≤ top
    → delay ≤ top
    → (delay ≡ 0) ⊎ (second ≤ delay)
    → (second ≤ next_backoff top delay) × (next_backoff top delay ≤ top)
unfolding next_backoff
next_backoff_bounds top delay h k c = ground arith

-- If the maximum is at least one second, a delay of two to the n seconds, cut at the maximum,
-- becomes two to the n + 1 seconds, cut at the maximum.
pub next_backoff-min :
    (top n : ℕ)
    → second ≤ top
    → next_backoff top (min (second * 2 ^ n) top) ≡ min (second * 2 ^ suc n) top
unfolding next_backoff
next_backoff-min top n h = rw pow-suc (ground (arith, two_pow_pos n))
