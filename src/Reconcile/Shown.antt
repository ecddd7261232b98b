-- ===== src/Reconcile/Shown.antt =====
-- `New` and `Status` of internal/reconcile/reconcile.go: what a reconciler starts with, and the
-- countdown that its status shows. The timings of `New` are parameters of the functions that use them.
use edge_route_gw.Prelude.{
  ℕ, ◌+◌, ◌-◌, ◌*◌, ◌/◌, ◌≤◌, ◌<◌, List, [], Option, none, some, false, map, ltb, if◌then◌else◌,
  ◌≡◌, arith,
}
use edge_route_gw.Model.{ComponentHealth, unknown}
use edge_route_gw.Driver.{Driver}
use edge_route_gw.Reconcile.{second, Reconciler}

abbrev seconds_until : Option ℕ → ℕ → ℕ
seconds_until none now = 0
seconds_until (some due) now = if ltb now due then (due - now) / second + 1 else 0

div_bounds : (n : ℕ) → (n / second * second ≤ n) × (n ≤ n / second * second + second)
div_bounds n = (omega arith, omega arith)

module _ {W A S : Type 0} where
  abbrev pub unknown_health : List (Driver W A S) → List ComponentHealth
  unknown_health ds = map (λ d. record { name = d.component; status = unknown; last_error = "" }) ds

  abbrev pub new_reconciler : W → List (Driver W A S) → Reconciler W A S
  new_reconciler w ds = record {
    world = w;
    status = record {
      applying = false;
      applied_gen = 0;
      last_attempt_at = 0;
      last_success_at = 0;
      last_error = none;
      components = unknown_health ds;
      warnings = [];
      last_plans = [];
    };
    last_good = λ c. none;
    backoff = 0;
    retry_at = none;
    bus = [];
  }

  -- `RetryInSeconds` of `Status`
  unfoldable pub retry_in_seconds : Reconciler W A S → ℕ → ℕ
  retry_in_seconds r now = seconds_until r.retry_at now

  -- While a retry is due later, the seconds that are shown reach the time when it is due, and go at
  -- most one second beyond it.
  pub retry_in_seconds_bounds :
      (r : Reconciler W A S) (due now : ℕ)
      → r.retry_at ≡ some due
      → now < due
      → (due ≤ now + retry_in_seconds r now * second)
        × (now + retry_in_seconds r now * second ≤ due + second)
  unfolding retry_in_seconds
  retry_in_seconds_bounds r due now e h = ground (arith, e, div_bounds (due - now))
