-- ===== src/Tests/Reconciling.antt =====
-- The reconciler over a world that is one number, with a driver that writes its artifacts there.
use edge_route_gw.Prelude.{
  ℕ, ◌+◌, ◌*◌, Bool, true, false, List, [], ◌∷◌, none, some, not, any, ◌&&◌, ◌==◌, is_some,
  if◌then◌else◌, ◌≡◌, refl,
}
use edge_route_gw.Text.{is_empty}
use edge_route_gw.Prelude.Sorting.{insertion}
use edge_route_gw.Model.{mode_b, mode_c, xray, frr, active, Component}
use edge_route_gw.Desired.{Snapshot, enabled_nodes}
use edge_route_gw.Driver.{Plan, Driver, planned, exec, noop}
use edge_route_gw.Routes.Preflight.{preflight, has_wildcard}
use edge_route_gw.Routes.Preflight.Verdict.{preflight-is_ok, some_node, pool_fits}
use edge_route_gw.Reconcile.{Env, Reconciler, loaded, second}
use edge_route_gw.Reconcile.Loop.{Loop}
use edge_route_gw.Reconcile.Pass.{pass}
use edge_route_gw.Reconcile.Pass.Outcome.{pass-Finishes, Finishes}
use edge_route_gw.Tests.Sample.{sample, sample_net, no_geodata}

abbrev no_nodes : Snapshot
no_nodes = record (sample mode_b) { nodes = [] }

preflight-is_ok_example :
    (preflight sample_net insertion (sample mode_c) no_geodata mode_b).is_ok ≡ (
      some_node (enabled_nodes (sample mode_c))
      && (not (is_empty (sample mode_c).network.service_iface && is_empty no_geodata.default_iface)
          && (not (any (λ r. has_wildcard r.match_kind r.match_value) (sample mode_c).rules)
              && pool_fits mode_b
                  (is_some (sample_net.parse_prefix (sample mode_c).network.fakeip_pool)))))
preflight-is_ok_example =
    preflight-is_ok sample_net insertion (sample mode_c) no_geodata mode_b (λ e. cc)

abbrev minute_top : ℕ
minute_top = 60 * second

-- The driver fails to write where `broken` is set.
abbrev writer : Component → Bool → Driver ℕ ℕ ℕ
writer c broken = record {
  component = c;
  plan = λ w prev arts. planned (record {
    component = c;
    actions = record { kind = if w == arts then noop else exec; detail = "write" } ∷ [];
    diff = "";
    state = some arts;
  });
  apply = λ w p arts. if broken then (w, some "disk full") else (arts, none);
  health = λ w. record { name = c; status = active; last_error = "" };
}

abbrev env : Env ℕ ℕ ℕ
env = record {
  load = λ w. loaded (sample mode_c);
  render = λ s. loaded s.generation;
  warnings = λ a. [];
  rows = λ a. [];
  record_apply = λ w e. w;
  set_last_applied = λ w gen. (w, none);
  replace_published = λ w rows. w;
  add_event = λ w gen e. w;
}

abbrev fresh : Reconciler ℕ ℕ ℕ
fresh = record {
  world = 0;
  status = record {
    applying = false;
    applied_gen = 0;
    last_attempt_at = 0;
    last_success_at = 0;
    last_error = none;
    components = [];
    warnings = [];
    last_plans = [];
  };
  last_good = λ c. none;
  backoff = 4 * second;
  retry_at = some 9;
  bus = [];
}

abbrev started : Loop ℕ ℕ ℕ
started = record { rec = fresh; plans = []; errs = [] }

abbrev two_writers : List (Driver ℕ ℕ ℕ)
two_writers = writer xray false ∷ writer frr false ∷ []

-- The first pass writes generation 7, a pass with a broken driver doubles the delay.
first_pass : (pass env minute_top two_writers 10 11 false fresh).0.world ≡ 7
unfolding pass
first_pass = refl

broken_pass :
    (pass env minute_top (writer xray true ∷ []) 10 11 false fresh).0.retry_at
    ≡ some (11 + 8 * second)
unfolding pass
broken_pass = refl

pass-Finishes_example :
    Finishes env minute_top 11 two_writers fresh (pass env minute_top two_writers 10 11 false fresh)
pass-Finishes_example = pass-Finishes env minute_top 11 two_writers 10 fresh

abbrev exec_plan : Component → Plan ℕ
exec_plan c = record {
  component = c;
  actions = record { kind = exec; detail = "write" } ∷ [];
  diff = "";
  state = some 7;
}
